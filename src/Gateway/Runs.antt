-- ===== src/Gateway/Runs.antt =====
-- Runs of the expression of a pattern, one item at a time, against segments.
use msa_tuto_server.Base.{
  ℕ, ◌≡◌, refl, sym, true, false, ◌&&◌, List, [], ◌∷◌, eqb, Bool-cases, inl, inr, is_some, arith,
}
use msa_tuto_server.Gateway.Path.{Text, is_slash, text_eq, Node, literal, run}
use msa_tuto_server.Gateway.Nodes.{nodes}
use msa_tuto_server.Gateway.Segments.{
  segments, segments_match, first_of, after_first, rest_of, after_first-in_first, segments-first_of,
}

no_segments : (s : Text) → segments_match [] (segments s) ≡ false
no_segments s = rw (segments-first_of s)

no_path : (s : Text) → segments_match (segments s) [] ≡ false
no_path s = rw (segments-first_of s)

-- After a name an expression goes on with a slash, or ends.
pub nodes_closed :
    (q : Text) (c : ℕ) (t : Text)
    → is_slash c ≡ false
    → is_some (run (nodes true q) (c ∷ t)) ≡ false
unfolding run
nodes_closed [] c t h = refl
nodes_closed (d ∷ q) c t h = elim (Bool-cases (is_slash d)) [
  | inl k ↦ rw (k, h)
  | inr f ↦ rw f (nodes_closed q c t h)
]

-- The rest of a path after a name that ends the pattern.
pub rest_ends :
    (s : Text) → is_some (run [] (rest_of s)) ≡ segments_match [] (after_first (segments s))
unfolding run
rest_ends [] = refl
rest_ends (c ∷ s) = elim (Bool-cases (is_slash c)) [
  | inl t ↦ rw (t, no_segments s)
  | inr f ↦ rw (f, after_first-in_first c (segments s)) (rest_ends s)
]

module _ (q : Text) (ns : List Node)
    (h : (t : Text) → is_some (run ns t) ≡ segments_match (segments q) (segments t)) where
  -- The rest of a path after a name before further segments.
  pub rest_goes_on :
      (s : Text)
      → is_some (run (literal b'/' ∷ ns) (rest_of s))
        ≡ segments_match (segments q) (after_first (segments s))
  unfolding run
  rest_goes_on [] = sym (no_path q)
  rest_goes_on (c ∷ s) = elim (Bool-cases (is_slash c)) [
    | inl t ↦ rw (t, t) (h s)
    | inr f ↦ rw (f, after_first-in_first c (segments s)) (rest_goes_on s)
  ]

  pub slash_matches :
      (s : Text)
      → is_some (run (literal b'/' ∷ ns) s)
        ≡ (text_eq [] (first_of s) && segments_match (segments q) (after_first (segments s)))
  unfolding run
  slash_matches [] = sym (no_path q)
  slash_matches (c ∷ s) = elim (Bool-cases (is_slash c)) [ inl t ↦ rw t (h s) | inr f ↦ rw f ]

pub end_matches :
    (s : Text)
    → is_some (run [] s) ≡ (text_eq [] (first_of s) && segments_match [] (after_first (segments s)))
unfolding run
end_matches [] = refl
end_matches (c ∷ s) = elim (Bool-cases (is_slash c)) [
  | inl t ↦ rw t (sym (no_segments s))
  | inr f ↦ rw f
]

eqb_symm : (a b : ℕ) → eqb a b ≡ eqb b a
eqb_symm a b = ground arith

pub literal_matches :
    (c : ℕ) (q : Text) (ns : List Node)
    → is_slash c ≡ false
    → ((t : Text)
        → is_some (run ns t) ≡ (
            text_eq (first_of q) (first_of t)
            && segments_match (after_first (segments q)) (after_first (segments t))))
    → (s : Text)
    → is_some (run (literal c ∷ ns) s) ≡ (
        text_eq (c ∷ first_of q) (first_of s)
        && segments_match (after_first (segments q)) (after_first (segments s)))
unfolding run
literal_matches c q ns k h [] = refl
literal_matches c q ns k h (d ∷ s) = elim (Bool-cases (is_slash d)) [
  | inl t ↦ let apart : eqb d c ≡ false = ground arith in rw (t, apart)
  | inr f ↦ elim (Bool-cases (eqb d c)) [
    | inl e ↦ rw (f, e, eqb_symm c d, e, after_first-in_first d (segments s)) (h s)
    | inr e ↦ rw (f, e, eqb_symm c d, e)
  ]
]
