-- ===== src/Editor/Writes.antt =====
-- What the edits of `,config` do to the configuration of a chat, and of every other chat.
use resenhazord.Prelude.{
  ℕ, suc, String, ◌≡◌, refl, ◌∙◌, inl, inr, Bool, true, false, ◌&&◌, Option, none, some, List, [],
  ◌∷◌, arith, if◌then◌else◌, Bool-cases, Option-cases, ◌==◌, eq_of_beq, get_elem?, string_eq,
  nat_eq, pair_eq,
}
use resenhazord.Text.{Unicode}
use resenhazord.Text.Split.{split}
use resenhazord.Command.{CommandConfig, CommandData, nsfw, scope_eq}
use resenhazord.Command.Run.{Command, contains}
use resenhazord.Config.{ChatKey, override_for}
use resenhazord.Config.Store.{ConfigStore, StoreLaws, is_chat}
use resenhazord.Config.Service.{is_togglable}
use resenhazord.Registry.{Registry, index_by_name}
use resenhazord.Editor.{
  subtype_category, has_category, key_of_chat, togglable_names, named_only, command_at,
  resolve_lower, resolve, write_each, write_targets, write_override, reset, apply,
}

module _ {W : Type 0} where
  -- A command of the list that has the name and that chats can switch.
  abbrev pub Listed : List (Command W) → String → Type 0
  Listed commands name =
      (i : ℕ) × (c : Command W) × (get_elem? commands i ≡ some c)
      × (c.config.name ≡ name)
      × (is_togglable c.config.scope ≡ true)

  Listed-later :
      (c : Command W) (commands : List (Command W)) (name : String)
      → Listed commands name
      → Listed (c ∷ commands) name
  Listed-later c commands name (i, x, e, f, g) = (suc i, x, e, f, g)

  togglable_names-Listed :
      (test : CommandConfig → Bool) (commands : List (Command W)) (name : String)
      → contains name (togglable_names test commands) ≡ true
      → Listed commands name
  unfolding togglable_names contains
  togglable_names-Listed test [] name h = cc
  togglable_names-Listed test (c ∷ commands) name h =
      elim (Bool-cases (is_togglable c.config.scope && test c.config)) [
        | inr fixed ↦
            Listed-later c commands name
              (togglable_names-Listed test commands name (ground (arith, h, fixed)))
        | inl switched ↦ elim (Bool-cases (c.config.name == name)) [
          | inl same ↦ (0, c, refl, eq_of_beq c.config.name name same, ground (arith, switched))
          | inr other ↦
              Listed-later c commands name
                (togglable_names-Listed test commands name (ground (arith, h, switched, other)))
        ]
      ]

  named_only-Listed :
      (r : Registry W) (place : Option ℕ) (name : String)
      → contains name (named_only (command_at r place)) ≡ true
      → Listed r.commands name
  unfolding contains
  named_only-Listed r none name h = cc
  named_only-Listed r (some i) name h = elim (Option-cases (get_elem? r.commands i)) [
    | inl missing ↦ cc (rw missing at h)
    | inr (c, found) ↦ elim (Bool-cases (is_togglable c.config.scope)) [
      | inl switched ↦ (
        i,
        c,
        found,
        eq_of_beq c.config.name name (ground (arith, rw found at h, switched)),
        switched,
      )
      | inr fixed ↦ absurd (ground (arith, rw found at h, fixed))
    ]
  ]

  resolve_lower-Listed :
      (u : Unicode) (r : Registry W) (token name : String)
      → contains name (resolve_lower u r token) ≡ true
      → Listed r.commands name
  unfolding resolve_lower
  resolve_lower-Listed u r token name h = elim (Bool-cases (token == "nsfw")) [
    | inl adult ↦
        togglable_names-Listed (λ config. config.scope == nsfw) r.commands name (rw adult at h)
    | inr other ↦ elim (Option-cases (subtype_category token)) [
      | inl single ↦ named_only-Listed r (index_by_name u r token) name (rw (other, single) at h)
      | inr (category, found) ↦
          togglable_names-Listed (has_category category) r.commands name (rw (other, found) at h)
    ]
  ]

  -- Whatever token an admin writes, the commands that it stands for are registered ones that chats can
  -- switch: no edit reaches a command that is internal, for admins, for developers or disabled.
  pub resolve-Listed :
      (u : Unicode) (r : Registry W) (token name : String)
      → contains name (resolve u r token) ≡ true
      → Listed r.commands name
  unfolding resolve
  resolve-Listed u r token name h = resolve_lower-Listed u r (u.lower token) name h

module _ {W S : Type 0} (u : Unicode) (r : Registry W) (c : ConfigStore S) (V : S → Type 0)
    (laws : StoreLaws c V) where
  pub set_each-override :
      (k : ChatKey) (on : Bool) (s : S) (names : List String) (p n name : String)
      → V s
      → override_for (c.load (write_each (λ s' x. c.set_override s' k x on) s names) p n) name ≡ (
          if is_chat k p n && contains name names
          then some on
          else override_for (c.load s p n) name)
  unfolding write_each contains
  set_each-override k on s [] p n name v = ground arith
  set_each-override k on s (x ∷ names) p n name v =
      set_each-override k on (c.set_override s k x on) names p n name
        (laws.set_override_valid s k x on v)
      ∙ ground (arith, laws.override-set_override s k x on p n name v)

  pub clear_each-override :
      (k : ChatKey) (s : S) (names : List String) (p n name : String)
      → V s
      → override_for (c.load (write_each (λ s' x. c.clear_override s' k x) s names) p n) name
        ≡ (if is_chat k p n && contains name names then none else override_for (c.load s p n) name)
  unfolding write_each contains
  clear_each-override k s [] p n name v = ground arith
  clear_each-override k s (x ∷ names) p n name v =
      clear_each-override k (c.clear_override s k x) names p n name
        (laws.clear_override_valid s k x v)
      ∙ ground (arith, laws.override-clear_override s k x p n name v)

  pub set_each-policy :
      (k : ChatKey) (on : Bool) (s : S) (names : List String) (p n : String)
      → V s
      → (c.load (write_each (λ s' x. c.set_override s' k x on) s names) p n).policy
        ≡ (c.load s p n).policy
  unfolding write_each
  set_each-policy k on s [] p n v = refl
  set_each-policy k on s (x ∷ names) p n v =
      set_each-policy k on (c.set_override s k x on) names p n (laws.set_override_valid s k x on v)
      ∙ laws.policy-set_override s k x on p n v

  pub clear_each-policy :
      (k : ChatKey) (s : S) (names : List String) (p n : String)
      → V s
      → (c.load (write_each (λ s' x. c.clear_override s' k x) s names) p n).policy
        ≡ (c.load s p n).policy
  unfolding write_each
  clear_each-policy k s [] p n v = refl
  clear_each-policy k s (x ∷ names) p n v =
      clear_each-policy k (c.clear_override s k x) names p n (laws.clear_override_valid s k x v)
      ∙ laws.policy-clear_override s k x p n v

  -- The store after `write_targets`: every target is written, and there may be none.
  pub write_targets-store :
      (write : S → String → S) (label : String) (s : S) (token : String)
      → (write_targets u r c write label s token).1 ≡ write_each write s (resolve u r token)
  unfolding write_targets write_each
  write_targets-store write label s token = ground arith

  module _ (s : S) (d : CommandData) (rest verb token : String) (more : List String)
      (written : split rest ≡ verb ∷ token ∷ more) (v : V s) where
    pub apply-on_store :
        (on : Bool)
        → u.lower verb ≡ (if on then "on" else "off")
        → (apply u r c s d rest).1
          ≡ write_each (λ s' x. c.set_override s' (key_of_chat d) x on) s (resolve u r token)
    unfolding apply write_override
    apply-on_store true h = rw (written, apply) (rw (h, apply) (write_targets-store _ _ s token))
    apply-on_store false h = rw (written, apply) (rw (h, apply) (write_targets-store _ _ s token))

    pub apply-reset_store :
        u.lower verb ≡ "reset"
        → (apply u r c s d rest).1
          ≡ write_each (λ s' x. c.clear_override s' (key_of_chat d) x) s (resolve u r token)
    unfolding apply reset
    apply-reset_store h = rw (written, apply) (rw (h, apply) (write_targets-store _ _ s token))
