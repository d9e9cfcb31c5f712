-- ===== src/Birthday/Once.antt =====
-- A chat is greeted once a day.
use resenhazord.Prelude.{
  ℕ, ◌+◌, ◌≤◌, String, ◌≡◌, ap, subst, inl, inr, Bool, true, false, List, [], ◌∷◌, ◌++◌, arith,
  Bool-cases, string_eq, ◌==◌, eq_of_beq, one_if, count_if, nat_eq, pair_eq,
}
use resenhazord.Prelude.Dict.{Dict}
use resenhazord.Text.{Unicode}
use resenhazord.Command.Run.{contains}
use resenhazord.Birthday.Book.{Book}
use resenhazord.Birthday.Scheduler.{Greeting, claim_of, claim, greeting, celebrate, Run, greetings}

-- How many of the greetings go to the chat.
abbrev pub greeted : String → List Greeting → ℕ
greeted chat sent = count_if (λ (g : Greeting). g.chat == chat) sent

greeted-append :
    (chat : String) (sent more : List Greeting)
    → greeted chat (sent ++ more) ≡ greeted chat sent + greeted chat more
unfolding count_if
greeted-append chat [] more = omega arith
greeted-append chat (g ∷ sent) more = omega (arith, greeted-append chat sent more)

module _ (u : Unicode) (published : String → Bool) (book : Book) (day chat : String) where
  abbrev pub is_claimed : List String → ℕ
  is_claimed keys = one_if (contains (claim_of chat day) keys)

  claim_le :
      (c : String) (keys : List String) → is_claimed keys ≤ is_claimed (claim_of c day ∷ keys)
  unfolding contains
  claim_le c keys = ground arith

  claim_step :
      (c : String) (keys : List String)
      → contains (claim_of c day) keys ≡ false
      → one_if (c == chat) + is_claimed keys ≤ is_claimed (claim_of c day ∷ keys)
  unfolding contains
  claim_step c keys new = elim (Bool-cases (c == chat)) [
    | inl same ↦
        let p : claim_of c day ≡ claim_of chat day =
          ap (λ x. claim_of x day) (eq_of_beq c chat same) in
        let free : contains (claim_of chat day) keys ≡ false =
          subst (λ k. contains k keys ≡ false) p new in
        rw (same, free)
          (ground (arith, (string_eq.beq_iff (claim_of c day) (claim_of chat day)).1 p))
    | inr other ↦ rw other (omega (arith, claim_le c keys))
  ]

  -- Each greeting uses up the chat's claim.
  celebrate-claims :
      (chats : Dict String (List String)) (keys : List String)
      → greeted chat (celebrate u true true published book day keys chats).0 + is_claimed keys
        ≤ is_claimed (celebrate u true true published book day keys chats).1
  unfolding celebrate claim count_if contains greeting
  celebrate-claims [] keys = omega arith
  celebrate-claims ((c, users) ∷ chats) keys = elim (Bool-cases (contains (claim_of c day) keys)) [
    | inl old ↦ rw (old, claim, celebrate) (celebrate-claims chats keys)
    | inr new ↦ elim (Bool-cases (published c)) [
      | inr down ↦ rw (new, down, claim, celebrate) (omega (arith, claim_le c keys))
      | inl up ↦
          let k : String = claim_of c day in
          let rest = celebrate-claims chats (k ∷ keys) in
          rw (new, up, claim, celebrate) (omega (arith, rest, claim_step c keys new))
    ]
  ]

greetings-claims :
    (u : Unicode) (day chat : String) (runs : List Run) (keys : List String)
    → greeted chat (greetings u day keys runs) + one_if (contains (claim_of chat day) keys) ≤ 1
unfolding greetings count_if contains
greetings-claims u day chat [] keys = ground arith
greetings-claims u day chat ((published, book, chats) ∷ runs) keys =
    let after = celebrate u true true published book day keys chats in
    omega (
      arith,
      celebrate-claims u published book day chat chats keys,
      greetings-claims u day chat runs after.1,
      greeted-append chat after.0 (greetings u day after.1 runs),
    )

-- However often the scheduler is started on one day, whatever the book holds at each start and
-- whichever greetings cannot be published, no chat is greeted twice while Redis answers.
pub greetings-once :
    (u : Unicode) (day chat : String) (runs : List Run) (keys : List String)
    → greeted chat (greetings u day keys runs) ≤ 1
greetings-once u day chat runs keys = omega (arith, greetings-claims u day chat runs keys)
