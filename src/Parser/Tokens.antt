-- ===== src/Parser/Tokens.antt =====
-- The flags that the loop of `parse` gathers.
use resenhazord.Prelude.{
  String, ◌≡◌, refl, subst, inl, inr, true, false, Option, none, some, List, [], ◌∷◌, arith,
  Bool-cases, Option-cases, eq_of_beq, beq_self, string_eq, nat_eq, pair_eq,
}
use resenhazord.Text.{Unicode, concat}
use resenhazord.Text.Regex.{Regex}
use resenhazord.Command.{some_text, CommandConfig}
use resenhazord.Distinct.{AllDistinct, contains-append, append-AllDistinct}
use resenhazord.Command.Run.{contains}
use resenhazord.Parser.{
  Gathered, is_token, flag_among, flag_or_rest, with_option, option_of, positional, consume,
}

module _ (u : Unicode) (compile : String → Regex) (config : CommandConfig) where
  -- The flags are declared ones, each gathered once.
  pub record IsSound (g : Gathered) : Type 0 where
    pub distinct : AllDistinct g.flags
    pub declared :
        (flag : String) → contains flag g.flags ≡ true → contains flag config.flags ≡ true

  pub flag_among-some :
      (flags : List String) (token : String) (matched : List String) (flag : String)
      → flag_among u compile config flags token matched ≡ some flag
      → (contains flag flags ≡ true) × (contains flag matched ≡ false)
  unfolding flag_among contains
  flag_among-some [] token matched flag h = cc
  flag_among-some (f ∷ flags) token matched flag h = elim (Bool-cases (contains f matched)) [
    | inl old ↦
        let (a, b) = flag_among-some flags token matched flag (rw (old, flag_among) at h) in
        (ground (arith, a), b)
    | inr new ↦ elim (Bool-cases (is_token u compile config f token)) [
      | inl same ↦
          let p : f ≡ flag = cc (rw (new, same, flag_among) at h) in
          (rw (p, beq_self flag) refl, subst (λ j. contains j matched ≡ false) p new)
      | inr other ↦
          let (a, b) =
            flag_among-some flags token matched flag (rw (new, other, flag_among) at h) in
          (ground (arith, a), b)
    ]
  ]

  pub some_text-some : (o : Option String) (flag : String) → some_text o ≡ some flag → o ≡ some flag
  some_text-some none flag h = cc
  some_text-some (some f) flag h = ground (arith, h)

  flag_or_rest-IsSound :
      (g : Gathered) (token : String) → IsSound g → IsSound (flag_or_rest u compile config g token)
  unfolding flag_or_rest
  flag_or_rest-IsSound g token h =
      elim (Option-cases (some_text (flag_among u compile config config.flags token g.flags))) [
        | inl e ↦ rw (e, flag_or_rest) (record { distinct = h.distinct; declared = h.declared })
        | inr (flag, e) ↦
            let (among, new) =
              flag_among-some config.flags token g.flags flag (some_text-some _ flag e) in
            rw (e, flag_or_rest)
              (record {
                distinct = append-AllDistinct g.flags flag h.distinct new;
                declared = λ f member. elim (Bool-cases (contains f g.flags)) [
                  | inl old ↦ h.declared f old
                  | inr other ↦
                      let same =
                        eq_of_beq flag f (cc (contains-append f g.flags flag, member, other)) in
                      subst (λ j. contains j config.flags ≡ true) same among
                ];
              })
      ]

  with_option-IsSound :
      (g : Gathered) (name value : String) → IsSound g → IsSound (with_option g name value)
  with_option-IsSound g name value h = record { distinct = h.distinct; declared = h.declared }

  pub consume-IsSound :
      (tokens : List String) (g : Gathered)
      → IsSound g
      → IsSound (consume u compile config g tokens)
  unfolding consume
  consume-IsSound [] g h = h
  consume-IsSound (token ∷ []) g h = elim (Option-cases (option_of u compile config g token)) [
    | inl e ↦ rw (e, consume) (flag_or_rest-IsSound g token h)
    | inr ((name, value), e) ↦
        rw (e, consume) (record { distinct = h.distinct; declared = h.declared })
  ]
  consume-IsSound (token ∷ next ∷ tokens) g h =
      elim (Option-cases (option_of u compile config g (concat token (concat " " next)))) [
        | inr ((name, value), e) ↦
            rw (e, consume) (consume-IsSound tokens _ (with_option-IsSound g name value h))
        | inl two ↦ elim (Option-cases (option_of u compile config g token)) [
          | inr ((name, value), e) ↦
              rw (two, e, consume)
                (consume-IsSound (next ∷ tokens) _ (with_option-IsSound g name value h))
          | inl one ↦ elim (Option-cases (positional u compile config next g.options)) [
            | inr (value, e) ↦
                rw (two, one, e, consume)
                  (consume-IsSound tokens _ (with_option-IsSound g token value h))
            | inl e ↦
                rw (two, one, e, consume)
                  (consume-IsSound (next ∷ tokens) _ (flag_or_rest-IsSound g token h))
          ]
        ]
      ]
