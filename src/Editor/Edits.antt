-- ===== src/Editor/Edits.antt =====
-- The edits of `,config` over any store that keeps the contract of the port.
use resenhazord.Prelude.{
  String, ◌≡◌, refl, ◌∙◌, inl, inr, Bool, true, false, ◌&&◌, none, some, List, ◌∷◌, arith,
  if◌then◌else◌, Bool-cases, Option-cases, string_eq, ◌==◌, List-cases, nat_eq, pair_eq,
}
use resenhazord.Text.{Unicode}
use resenhazord.Text.Split.{split}
use resenhazord.Command.{CommandConfig, CommandData, or_empty}
use resenhazord.Command.Run.{contains}
use resenhazord.Config.{ChatPolicy, ChatConfig, override_for}
use resenhazord.Config.Store.{ConfigStore, StoreLaws, is_chat}
use resenhazord.Config.Service.{is_togglable, is_enabled}
use resenhazord.Config.Service as Service
use resenhazord.Registry.{Registry}
use resenhazord.Editor.{
  key_of_chat, policy_of, first_or_empty, resolve, write_override, reset, set_policy, run_verb,
  apply,
}
use resenhazord.Editor.Writes.{
  set_each-override, set_each-policy, clear_each-override, clear_each-policy, write_targets-store,
  apply-on_store, apply-reset_store,
}

-- Two configurations agree on the policy and on each override.
abbrev pub Agrees : ChatConfig → ChatConfig → Type 0
Agrees a b = (a.policy ≡ b.policy) × ((name : String) → override_for a name ≡ override_for b name)

module _ {W S : Type 0} (u : Unicode) (r : Registry W) (c : ConfigStore S) (V : S → Type 0)
    (laws : StoreLaws c V) (s : S) (d : CommandData) where
  module _ (rest verb token : String) (more : List String)
      (written : split rest ≡ verb ∷ token ∷ more) (v : V s) where
    -- From a valid store, `on` or `off` with a token sets the override of each command that the token
    -- stands for, in the chat it was written in; no other override, no other chat and no policy changes.
    pub apply-on :
        (on : Bool)
        → u.lower verb ≡ (if on then "on" else "off")
        → (p n : String)
        → ((c.load (apply u r c s d rest).1 p n).policy ≡ (c.load s p n).policy)
          × ((name : String)
              → override_for (c.load (apply u r c s d rest).1 p n) name ≡ (
                  if is_chat (key_of_chat d) p n && contains name (resolve u r token)
                  then some on
                  else override_for (c.load s p n) name))
    apply-on on h p n = rw (apply-on_store u r c V laws s d rest verb token more written v on h) (
      set_each-policy u r c V laws (key_of_chat d) on s (resolve u r token) p n v,
      λ name. set_each-override u r c V laws (key_of_chat d) on s (resolve u r token) p n name v,
    )

    -- From a valid store, `reset` with a token removes the override of each command that the token stands
    -- for, in the chat it was written in; no other override, no other chat and no policy changes.
    pub apply-reset :
        u.lower verb ≡ "reset"
        → (p n : String)
        → ((c.load (apply u r c s d rest).1 p n).policy ≡ (c.load s p n).policy)
          × ((name : String)
              → override_for (c.load (apply u r c s d rest).1 p n) name ≡ (
                  if is_chat (key_of_chat d) p n && contains name (resolve u r token)
                  then none
                  else override_for (c.load s p n) name))
    apply-reset h p n = rw (apply-reset_store u r c V laws s d rest verb token more written v h) (
      clear_each-policy u r c V laws (key_of_chat d) s (resolve u r token) p n v,
      λ name. clear_each-override u r c V laws (key_of_chat d) s (resolve u r token) p n name v,
    )

    -- After `on` or `off`, from a valid store, the service says so to every later message of that chat
    -- about each command that the token stands for, whatever the policy.
    pub apply-is_enabled :
        (on : Bool)
        → u.lower verb ≡ (if on then "on" else "off")
        → (later : CommandData) (config : CommandConfig)
        → or_empty later.platform ≡ or_empty d.platform
        → later.jid ≡ d.jid
        → is_togglable config.scope ≡ true
        → contains config.name (resolve u r token) ≡ true
        → (is_enabled (λ s' p n. (c.load s' p n, s')) (apply u r c s d rest).1 later config).0 ≡ on
    unfolding is_enabled Service.resolve
    apply-is_enabled on h later config same_platform same_chat switched target = ground (
      arith,
      (apply-on on h (or_empty later.platform) later.jid).1 config.name,
      switched,
      target,
      string_eq.beq_iff (or_empty d.platform) (or_empty later.platform),
      string_eq.beq_iff d.jid later.jid,
    )

  module _ (p n : String) (other : is_chat (key_of_chat d) p n ≡ false) (v : V s) where
    write_override-other :
        (on : Bool) (label token : String)
        → Agrees (c.load (write_override u r c on label s d token).1 p n) (c.load s p n)
    unfolding write_override
    write_override-other on label token =
        rw
          (write_targets-store u r c V laws (λ s' x. c.set_override s' (key_of_chat d) x on) label s
            token)
          (
            set_each-policy u r c V laws (key_of_chat d) on s (resolve u r token) p n v,
            λ name.
                set_each-override u r c V laws (key_of_chat d) on s (resolve u r token) p n name v
                ∙ ground (arith, other),
          )

    reset-other : (token : String) → Agrees (c.load (reset u r c s d token).1 p n) (c.load s p n)
    unfolding reset
    reset-other token =
        rw
          (write_targets-store u r c V laws (λ s' x. c.clear_override s' (key_of_chat d) x)
            "↩\u{fe0f} Resetado ao padrão" s token)
          (
            clear_each-policy u r c V laws (key_of_chat d) s (resolve u r token) p n v,
            λ name.
                clear_each-override u r c V laws (key_of_chat d) s (resolve u r token) p n name v
                ∙ ground (arith, other),
          )

    set_policy-other :
        (token : String) → Agrees (c.load (set_policy u r c s d token).1 p n) (c.load s p n)
    unfolding set_policy
    set_policy-other token = elim (Option-cases (policy_of (u.lower token))) [
      | inl unknown ↦ rw (unknown, set_policy) (refl, λ name. refl)
      | inr (q, found) ↦
          rw (found, set_policy)
            (
              laws.policy-set_policy s (key_of_chat d) q p n v ∙ ground (arith, other),
              λ name. laws.override-set_policy s (key_of_chat d) q p n name v,
            )
    ]

    run_verb-other :
        (verb argument : String)
        → Agrees (c.load (run_verb u r c s d verb argument).1 p n) (c.load s p n)
    unfolding run_verb
    run_verb-other verb argument = elim (Bool-cases (verb == "on")) [
      | inl on ↦ rw (on, run_verb) (write_override-other true _ argument)
      | inr not_on ↦ elim (Bool-cases (verb == "off")) [
        | inl off ↦ rw (not_on, off, run_verb) (write_override-other false _ argument)
        | inr not_off ↦ elim (Bool-cases (verb == "reset")) [
          | inl again ↦ rw (not_on, not_off, again, run_verb) (reset-other argument)
          | inr not_reset ↦ elim (Bool-cases (verb == "policy")) [
            | inl policy ↦
                rw (not_on, not_off, not_reset, policy, run_verb) (set_policy-other argument)
            | inr unknown ↦ rw (not_on, not_off, not_reset, unknown, run_verb) (refl, λ name. refl)
          ]
        ]
      ]
    ]

    -- Whatever is written after `,config`, the policy and the overrides of every other chat stay.
    pub apply-other_chats :
        (rest : String) → Agrees (c.load (apply u r c s d rest).1 p n) (c.load s p n)
    unfolding apply
    apply-other_chats rest = elim (List-cases (split rest)) [
      | inl none_written ↦ rw (none_written, apply) (refl, λ name. refl)
      | inr (verb, arguments, written) ↦
          rw (written, apply) (run_verb-other (u.lower verb) (first_or_empty arguments))
    ]

  -- From a valid store, `policy` with the name of a policy sets it in the chat it was written in, and
  -- changes no override and no other chat.
  pub apply-policy :
      (rest verb token : String) (more : List String) (q : ChatPolicy)
      → split rest ≡ verb ∷ token ∷ more
      → V s
      → u.lower verb ≡ "policy"
      → policy_of (u.lower token) ≡ some q
      → (p n : String)
      → ((c.load (apply u r c s d rest).1 p n).policy
          ≡ (if is_chat (key_of_chat d) p n then q else (c.load s p n).policy))
        × ((name : String)
            → override_for (c.load (apply u r c s d rest).1 p n) name
              ≡ override_for (c.load s p n) name)
  unfolding apply set_policy
  apply-policy rest verb token more q written v h found p n =
      rw (written, apply)
        (rw (h, apply)
          (rw (found, set_policy)
            (
              laws.policy-set_policy s (key_of_chat d) q p n v,
              λ name. laws.override-set_policy s (key_of_chat d) q p n name v,
            )))
