-- ===== src/Parser/Spelt.antt =====
-- The flags that a word spells.
use resenhazord.Prelude.{
  String, ◌≡◌, refl, sym, subst, inl, inr, true, false, Option, none, some, List, [], ◌∷◌, arith,
  Bool-cases, ◌==◌, eq_of_beq, beq_self, string_eq, nat_eq, pair_eq,
}
use resenhazord.Text.{Unicode}
use resenhazord.Text.Regex.{Regex}
use resenhazord.Command.{some_text, CommandConfig}
use resenhazord.Command.Run.{contains}
use resenhazord.Parser.{is_token, flag_among}

pub some_text-keeps :
    (o : Option String) (f : String) → o ≡ some f → (f == "") ≡ false → some_text o ≡ some f
some_text-keeps none f h e = cc
some_text-keeps (some x) f h e =
    let p : x ≡ f = cc h in subst (λ y. some_text (some y) ≡ some f) (sym p) (rw e refl)

module _ (u : Unicode) (compile : String → Regex) (config : CommandConfig) where
  -- The flag that a token spells, of those that are not gathered yet.
  abbrev pub Found : List String → String → List String → Type 0
  Found flags token matched =
      (f : String) × (flag_among u compile config flags token matched ≡ some f)
      × (contains f flags ≡ true)
      × (is_token u compile config f token ≡ true)

  Found-here :
      (x : String) (flags : List String) (token : String) (matched : List String)
      → contains x matched ≡ false
      → is_token u compile config x token ≡ true
      → Found (x ∷ flags) token matched
  unfolding flag_among contains
  Found-here x flags token matched new same =
      (x, rw (new, same, flag_among) refl, ground (arith, beq_self x), same)

  Found-later :
      (x : String) (flags : List String) (token : String) (matched : List String)
      → Found flags token matched
      → Found (x ∷ flags) token matched
  unfolding flag_among contains
  Found-later x flags token matched (f, e, member, spells) =
      elim (Bool-cases (contains x matched)) [
        | inl old ↦ (f, rw (old, flag_among) e, ground (arith, member), spells)
        | inr new ↦ elim (Bool-cases (is_token u compile config x token)) [
          | inl same ↦ Found-here x flags token matched new same
          | inr other ↦ (f, rw (new, other, flag_among) e, ground (arith, member), spells)
        ]
      ]

  pub flag_among-Found :
      (flags : List String) (token : String) (matched : List String) (flag : String)
      → contains flag flags ≡ true
      → is_token u compile config flag token ≡ true
      → contains flag matched ≡ false
      → Found flags token matched
  unfolding contains
  flag_among-Found [] token matched flag h e new = cc
  flag_among-Found (x ∷ flags) token matched flag h e new = elim (Bool-cases (x == flag)) [
    | inl same ↦
        let p : flag ≡ x = sym (eq_of_beq x flag same) in
        Found-here x flags token matched (subst (λ f. contains f matched ≡ false) p new)
          (subst (λ f. is_token u compile config f token ≡ true) p e)
    | inr other ↦
        Found-later x flags token matched
          (flag_among-Found flags token matched flag (rw other at h) e new)
  ]

  abbrev pub IsUnspelt : String → Type 0
  IsUnspelt word =
      (flag : String)
      → contains flag config.flags ≡ true
      → is_token u compile config flag word ≡ false

  -- A gathered flag is spelt by the word that gave it.
  pub flag_among-spells :
      (flags : List String) (token : String) (matched : List String) (flag : String)
      → flag_among u compile config flags token matched ≡ some flag
      → is_token u compile config flag token ≡ true
  unfolding flag_among
  flag_among-spells [] token matched flag h = cc
  flag_among-spells (x ∷ flags) token matched flag h = elim (Bool-cases (contains x matched)) [
    | inl old ↦ flag_among-spells flags token matched flag (rw (old, flag_among) at h)
    | inr new ↦ elim (Bool-cases (is_token u compile config x token)) [
      | inl same ↦
          let p : x ≡ flag = cc (rw (new, same, flag_among) at h) in
          subst (λ f. is_token u compile config f token ≡ true) p same
      | inr other ↦ flag_among-spells flags token matched flag (rw (new, other, flag_among) at h)
    ]
  ]
