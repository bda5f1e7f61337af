-- ===== src/Gateway/Segments.antt =====
-- Route patterns against paths, segment by segment.
use msa_tuto_server.Base.{
  ℕ, ◌≡◌, refl, ◌∙◌, ap, Bool, true, false, ◌&&◌, ◌||◌, not, Option, none, some, List, [], ◌∷◌,
  ◌++◌, eqb, if◌then◌else◌, Bool-cases, inl, inr, is_some,
}
use msa_tuto_server.Gateway.Path.{Text, is_slash, text_eq, run_group, captured, or_try}
use msa_tuto_server.Gateway.Nodes.{is_some_text}

-- A text with one more character in its first segment.
abbrev pub in_first : ℕ → List Text → List Text
in_first c [] = (c ∷ []) ∷ []
in_first c (t ∷ ts) = (c ∷ t) ∷ ts

-- `text.split('/')`
abbrev pub segments : Text → List Text
segments [] = [] ∷ []
segments (c ∷ s) = let rest = segments s in if is_slash c then [] ∷ rest else in_first c rest

-- A segment `:name` is met by every segment that is not empty, another one by itself.
abbrev pub segment_matches : Text → Text → Bool
segment_matches [] t = text_eq [] t
segment_matches (c ∷ s) t =
    if eqb c b':' && is_some_text s then is_some_text t else text_eq (c ∷ s) t

abbrev pub segments_match : List Text → List Text → Bool
segments_match [] [] = true
segments_match [] (t ∷ ts) = false
segments_match (p ∷ ps) [] = false
segments_match (p ∷ ps) (t ∷ ts) = segment_matches p t && segments_match ps ts

-- The text after its first segment, and whether that segment has a character.
abbrev pub rest_of : Text → Text
rest_of [] = []
rest_of (c ∷ s) = let rest = rest_of s in if is_slash c then c ∷ s else rest

abbrev pub starts_segment : Text → Bool
starts_segment [] = false
starts_segment (c ∷ s) = not (is_slash c)

-- The first segment, and the segments after it.
abbrev pub first_of : Text → Text
first_of [] = []
first_of (c ∷ s) = let rest = first_of s in if is_slash c then [] else c ∷ rest

abbrev pub after_first : List Text → List Text
after_first [] = []
after_first (t ∷ ts) = ts

pub after_first-in_first : (c : ℕ) (ts : List Text) → after_first (in_first c ts) ≡ after_first ts
after_first-in_first c [] = refl
after_first-in_first c (t ∷ ts) = refl

pub segments-first_of : (s : Text) → segments s ≡ first_of s ∷ after_first (segments s)
segments-first_of [] = refl
segments-first_of (c ∷ s) = elim (Bool-cases (is_slash c)) [
  | inl t ↦ rw t
  | inr f ↦ rw (f, after_first-in_first c (segments s)) (ap (in_first c) (segments-first_of s))
]

pub starts_segment-first_of : (s : Text) → starts_segment s ≡ is_some_text (first_of s)
starts_segment-first_of [] = refl
starts_segment-first_of (c ∷ s) = elim (Bool-cases (is_slash c)) [ inl t ↦ rw t | inr f ↦ rw f ]

captured-none :
    (taken : Text) (r : Option (List Text)) → is_some r ≡ false → captured taken r ≡ none
captured-none [] r h = refl
captured-none (c ∷ s) none h = refl
captured-none (c ∷ s) (some vs) h = absurd (cc h)

captured_some :
    (taken : Text) (r : Option (List Text))
    → is_some (captured taken r) ≡ (is_some_text taken && is_some r)
captured_some [] r = refl
captured_some (c ∷ s) none = refl
captured_some (c ∷ s) (some vs) = refl

or_try-none : (x : Option (List Text)) → or_try x none ≡ x
or_try-none none = refl
or_try-none (some vs) = refl

is_some_text-append : (s : Text) (c : ℕ) → is_some_text (s ++ c ∷ []) ≡ true
is_some_text-append [] c = refl
is_some_text-append (d ∷ s) c = refl

or_false : (a b : Bool) → (a && b) ≡ ((a || false) && b)
or_false true b = refl
or_false false b = refl

or_true : (a b : Bool) → b ≡ ((a || true) && b)
or_true true b = refl
or_true false b = refl

-- A group before an expression that begins with a slash, or that is empty, takes the first segment.
pub run_group-rest :
    (k : Text → Option (List Text)) (taken s : Text)
    → ((c : ℕ) (t : Text) → is_slash c ≡ false → is_some (k (c ∷ t)) ≡ false)
    → is_some (run_group k taken s)
      ≡ ((is_some_text taken || starts_segment s) && is_some (k (rest_of s)))
unfolding run_group
run_group-rest k taken [] h =
    captured_some taken (k []) ∙ or_false (is_some_text taken) (is_some (k []))
run_group-rest k taken (c ∷ s) h = elim (Bool-cases (is_slash c)) [
  | inl t ↦
      rw t (captured_some taken (k (c ∷ s)) ∙ or_false (is_some_text taken) (is_some (k (c ∷ s))))
  | inr f ↦
      let longer : is_some (run_group k (taken ++ c ∷ []) s)
          ≡ ((is_some_text (taken ++ c ∷ []) || starts_segment s) && is_some (k (rest_of s))) =
        run_group-rest k (taken ++ c ∷ []) s h in
      rw
        (
          f,
          captured-none taken (k (c ∷ s)) (h c s f),
          or_try-none (run_group k (taken ++ c ∷ []) s),
        )
        ((rw (is_some_text-append taken c) at longer)
          ∙ or_true (is_some_text taken) (is_some (k (rest_of s))))
]
