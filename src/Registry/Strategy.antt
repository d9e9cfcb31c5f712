-- ===== src/Registry/Strategy.antt =====
-- What `get_strategy` of bot/application/command_registry.py answers.
use resenhazord.Prelude.{
  ℕ, ◌+◌, ◌<◌, String, ◌≡◌, refl, ap, inl, inr, true, false, Option, none, some, arith, Bool-cases,
  Option-cases, order-cases, get_elem?,
}
use resenhazord.Text.{Unicode}
use resenhazord.Command.Run.{Command}
use resenhazord.Registry.{
  Registry, is_candidate, first_match, candidate_matches, lookup_by_leading_token, get_strategy,
}
use resenhazord.Registry.Lookup.{FirstAt, first_match-some, first_match-none, first_named-none}

module _ {W : Type 0} (u : Unicode) (r : Registry W) (text : String) where
  abbrev pub candidate_of : Option ℕ
  candidate_of = lookup_by_leading_token u r text

  -- A candidate that matches is at a place of the list.
  candidate-at :
      (o : Option ℕ)
      → candidate_matches r o text ≡ true
      → (i : ℕ) × (c : Command W) × (o ≡ some i)
        × (get_elem? r.commands i ≡ some c)
        × (c.matches text ≡ true)
  candidate-at none h = cc
  candidate-at (some i) h = elim (Option-cases (get_elem? r.commands i)) [
    | inl e ↦ cc (rw (e, candidate_matches) at h)
    | inr (c, e) ↦ (i, c, refl, e, rw (e, candidate_matches) at h)
  ]

  -- A candidate that is passed over does not match.
  candidate-passed :
      (o : Option ℕ) (i : ℕ) (c : Command W)
      → is_candidate o i ≡ true
      → get_elem? r.commands i ≡ some c
      → c.matches text ≡ true
      → candidate_matches r o text ≡ true
  candidate-passed none i c h e hit = cc
  candidate-passed (some j) i c h e hit =
      let same : j ≡ i = ground (arith, h) in
      rw (same, candidate_matches) (rw (e, candidate_matches) hit)

  -- The two facts about the first loop, from place 0.
  found-at :
      (k : ℕ)
      → first_match candidate_of text 0 r.commands ≡ some k
      → (f : FirstAt text candidate_of 0 r.commands k) × (f.place ≡ k)
  found-at k found =
      let f = first_match-some text candidate_of 0 r.commands k found in
      (f, omega (arith, f.offset))

  missed-hit :
      (j : ℕ) (cmd : Command W)
      → candidate_matches r candidate_of text ≡ false
      → first_match candidate_of text 0 r.commands ≡ none
      → get_elem? r.commands j ≡ some cmd
      → cmd.matches text ≡ false
  missed-hit j cmd other missed e = elim (Bool-cases (cmd.matches text)) [
    | inr miss ↦ miss
    | inl hit ↦
        let passed = first_match-none text candidate_of 0 r.commands j cmd missed e hit in
        let place : 0 + j ≡ j = omega arith in
        cc (other, candidate-passed candidate_of j cmd (rw place at passed) e hit)
  ]

  -- If any registered command matches the text, the command found is a registered one that matches.
  pub get_strategy-matches :
      (j : ℕ) (cmd : Command W)
      → get_elem? r.commands j ≡ some cmd
      → cmd.matches text ≡ true
      → (i : ℕ) × (c : Command W) × (get_strategy u r text ≡ some i)
        × (get_elem? r.commands i ≡ some c)
        × (c.matches text ≡ true)
  unfolding get_strategy
  get_strategy-matches j cmd e hit = elim (Bool-cases (candidate_matches r candidate_of text)) [
    | inl direct ↦
        let (i, c, same, at, m) = candidate-at candidate_of direct in
        (i, c, rw (direct, get_strategy) same, at, m)
    | inr other ↦ elim (Option-cases (first_match candidate_of text 0 r.commands)) [
      | inl missed ↦ cc (hit, missed-hit j cmd other missed e)
      | inr (k, found) ↦
          let (f, place) = found-at k found in
          (k, f.cmd, rw (other, get_strategy) (rw (found, get_strategy)), rw (← place) f.at, f.hit)
    ]
  ]

  -- No command is found only if none matches the text and no parser finds its name in it.
  pub get_strategy-none :
      get_strategy u r text ≡ none
      → (j : ℕ) (cmd : Command W) → get_elem? r.commands j ≡ some cmd
      → (cmd.matches text ≡ false) × ((cmd.parse text).command_name ≡ "")
  unfolding get_strategy
  get_strategy-none h j cmd e = elim (Bool-cases (candidate_matches r candidate_of text)) [
    | inl direct ↦
        let (i, c, same, at, m) = candidate-at candidate_of direct in
        cc (same, (rw (direct, get_strategy) at h))
    | inr other ↦ elim (Option-cases (first_match candidate_of text 0 r.commands)) [
      | inl missed ↦ (
        missed-hit j cmd other missed e,
        first_named-none text 0 r.commands j cmd
            (rw (missed, get_strategy) at (rw (other, get_strategy) at h)) e,
      )
      | inr (k, found) ↦ cc (rw (found, get_strategy) at (rw (other, get_strategy) at h))
    ]
  ]

  -- Where the command named by the leading token does not match, the first registered command that
  -- matches is found: no earlier one matches.
  pub get_strategy-first :
      (k : ℕ) (cmd : Command W)
      → candidate_matches r (lookup_by_leading_token u r text) text ≡ false
      → get_elem? r.commands k ≡ some cmd
      → cmd.matches text ≡ true
      → ((n : ℕ) (c : Command W) → n < k → get_elem? r.commands n ≡ some c → c.matches text ≡ false)
      → get_strategy u r text ≡ some k
  unfolding get_strategy
  get_strategy-first k cmd other e hit least =
      elim (Option-cases (first_match candidate_of text 0 r.commands)) [
        | inl missed ↦ cc (hit, missed-hit k cmd other missed e)
        | inr (i, found) ↦
            let (f, place) = found-at i found in
            rw (other, get_strategy)
              (rw (found, get_strategy)
                (ap some (elim (order-cases i k) [
                  | inl h ↦ cc (least i f.cmd h (rw (← place) f.at), f.hit)
                  | inr (inl h) ↦ h
                  | inr (inr h) ↦
                      let passed = f.earlier k cmd (omega (arith, h, place)) e hit in
                      let here : 0 + k ≡ k = omega arith in
                      cc (other, candidate-passed candidate_of k cmd (rw here at passed) e hit)
                ])))
      ]
