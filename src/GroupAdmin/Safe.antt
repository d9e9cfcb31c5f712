-- ===== src/GroupAdmin/Safe.antt =====
-- Whom a ban can remove.
use resenhazord.Prelude.{
  ℕ, zero, suc, ◌%◌, ◌<◌, String, ◌≡◌, subst, inl, inr, Bool, true, false, ◌&&◌, ◌||◌, Option, some,
  List, [], ◌∷◌, arith, Bool-cases, ◌==◌, eq_of_beq, beq_self, length, List-cases, get_or,
  string_eq, nat_eq, pair_eq,
}
use native.Mathlib.Nat.{mod-lt}
use resenhazord.Text.{Unicode}
use resenhazord.Command.{CommandData}
use resenhazord.Command.Run.{contains}
use resenhazord.GroupAdmin.{Participant, Metadata, is_admin_entry, is_sender_admin}
use resenhazord.GroupAdmin.Ban.{is_owner, candidates, ban_random, owner_is_admin, ban_each, ban}

contains-get_or :
    (xs : List String) (i : ℕ) (d : String) → i < length xs → contains (get_or xs i d) xs ≡ true
unfolding contains
contains-get_or [] i d h = absurd (omega (arith, h))
contains-get_or (x ∷ xs) zero d h = ground (arith, beq_self x)
contains-get_or (x ∷ xs) (suc i) d h = ground (arith, contains-get_or xs i d (omega (arith, h)))

module _ (u : Unicode) (bot : String) (removes : String → Bool) where
  -- Neither the bot nor the owner is a candidate.
  candidates-spared :
      (owner : Option String) (participants : List Participant) (jid : String)
      → contains jid (candidates u bot removes owner participants) ≡ true
      → ((jid == bot) ≡ false) × (is_owner owner jid ≡ false)
  unfolding candidates contains
  candidates-spared owner [] jid h = cc
  candidates-spared owner (p ∷ participants) jid h =
      elim (Bool-cases (p.id == bot || is_owner owner p.id)) [
        | inl spared ↦ candidates-spared owner participants jid (rw (spared, candidates) at h)
        | inr out ↦ elim (Bool-cases (p.id == jid)) [
          | inl same ↦
              subst (λ j. ((j == bot) ≡ false) × (is_owner owner j ≡ false))
                (eq_of_beq p.id jid same) (ground (arith, out), ground (arith, out))
          | inr other ↦
              candidates-spared owner participants jid (rw (other) at (rw (out, candidates) at h))
        ]
      ]

  ban_random-spared :
      (drawn : ℕ) (d : CommandData) (participants : List Participant) (owner : Option String)
      (jid : String)
      → contains jid (ban_random u bot removes drawn d participants owner).1 ≡ true
      → ((jid == bot) ≡ false) × (is_owner owner jid ≡ false)
  unfolding ban_random contains
  ban_random-spared drawn d participants owner jid h =
      elim (List-cases (candidates u bot removes owner participants)) [
        | inl none_left ↦ absurd (cc (rw (none_left, ban_random) at h))
        | inr (x, xs, some_left) ↦
            let target : String = get_or (x ∷ xs) (drawn % length (x ∷ xs)) x in
            let member : contains target (x ∷ xs) ≡ true =
              contains-get_or (x ∷ xs) (drawn % length (x ∷ xs)) x (mod-lt drawn (omega arith)) in
            let asked : contains jid (target ∷ []) ≡ true = rw (some_left, ban_random) at h in
            subst (λ j. ((j == bot) ≡ false) × (is_owner owner j ≡ false))
              (eq_of_beq target jid (ground (arith, asked)))
              (candidates-spared owner participants target (rw some_left member))
      ]

  ban_each-spared :
      (d : CommandData) (owner : Option String) (protected : Bool) (jids : List String)
      (jid : String)
      → contains jid (ban_each u bot removes d owner protected jids).1 ≡ true
      → ((jid == bot) ≡ false) × ((is_owner owner jid && protected) ≡ false)
  unfolding ban_each contains
  ban_each-spared d owner protected [] jid h = cc
  ban_each-spared d owner protected (x ∷ jids) jid h =
      elim (Bool-cases (x == bot || is_owner owner x && protected)) [
        | inl spared ↦ ban_each-spared d owner protected jids jid (rw (spared, ban_each) at h)
        | inr out ↦ elim (Bool-cases (x == jid)) [
          | inl same ↦
              subst (λ j. ((j == bot) ≡ false) × ((is_owner owner j && protected) ≡ false))
                (eq_of_beq x jid same) (ground (arith, out), ground (arith, out))
          | inr other ↦
              ban_each-spared d owner protected jids jid (rw other at (rw (out, ban_each) at h))
        ]
      ]

  -- Whoever a ban asks the gateway to remove: the bot and the sender are administrators of the group,
  -- and the one removed is neither the bot nor an owner who is an administrator. This holds of a
  -- random ban and of one by mentions, whatever removals fail.
  pub ban-spared :
      (drawn : ℕ) (d : CommandData) (m : Metadata) (jid : String)
      → contains jid (ban u bot removes drawn d (some m)).1 ≡ true
      → (is_admin_entry bot m.participants ≡ true)
        × (is_sender_admin d m.participants ≡ true)
        × ((jid == bot) ≡ false)
        × ((is_owner m.owner jid && owner_is_admin u bot removes m.owner m.participants) ≡ false)
  unfolding ban contains
  ban-spared drawn d m jid h = elim (Bool-cases (is_admin_entry bot m.participants)) [
    | inr no_admin ↦ absurd (cc (rw (no_admin, ban) at h))
    | inl bot_admin ↦ elim (Bool-cases (is_sender_admin d m.participants)) [
      | inr no_admin ↦ absurd (cc (rw (bot_admin, no_admin, ban) at h))
      | inl sender ↦ elim (List-cases d.mentioned_jids) [
        | inl nobody ↦
            let (a, b) =
              ban_random-spared drawn d m.participants m.owner jid
                (rw (bot_admin, sender, nobody, ban) at h) in
            (bot_admin, sender, a, ground (arith, b))
        | inr (x, xs, some_one) ↦
            let (a, b) =
              ban_each-spared d m.owner (owner_is_admin u bot removes m.owner m.participants)
                (x ∷ xs) jid (rw (bot_admin, sender, some_one, ban) at h) in
            (bot_admin, sender, a, b)
      ]
    ]
  ]
