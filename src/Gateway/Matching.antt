-- ===== src/Gateway/Matching.antt =====
-- `matchPath` against the comparison of a pattern and a path segment by segment.
use msa_tuto_server.Base.{
  ℕ, ◌≡◌, refl, sym, ◌∙◌, ap, Bool, true, false, ◌&&◌, not, Option, none, some, List, [], ◌∷◌, eqb,
  if◌then◌else◌, Bool-cases, inl, inr, is_some, arith,
}
use msa_tuto_server.Gateway.Path.{
  Text, is_slash, text_eq, literal, group, plain, with_params, compile, path_to_regex, run,
  match_path,
}
use msa_tuto_server.Gateway.Nodes.{is_simple, is_some_text, nodes, compile-nodes}
use msa_tuto_server.Gateway.Segments.{
  in_first, segments, segments_match, first_of, after_first, rest_of, starts_segment,
  after_first-in_first, segments-first_of, starts_segment-first_of, run_group-rest,
}
use msa_tuto_server.Gateway.Runs.{
  nodes_closed, rest_ends, rest_goes_on, slash_matches, end_matches, literal_matches,
}

-- Where in a segment of a pattern a character stands.
pub data Place : Type 0 where
  beginning within naming : Place

-- A colon stands at the beginning of a segment alone, and before a name.
abbrev pub is_well_formed : Place → Text → Bool
is_well_formed place [] = true
is_well_formed place (c ∷ s) =
    let next = is_well_formed beginning s in
    let same = is_well_formed within s in
    let name = is_well_formed naming s in
    if is_slash c then next else elim place [
      | beginning ↦ if eqb c b':' then starts_segment s && name else same
      | within ↦ not (eqb c b':') && same
      | naming ↦ name
    ]

-- The three places at which the expression of the rest of a pattern can be run.
abbrev Named : Text → Type 0
Named q =
    is_well_formed naming q ≡ true
    → (s : Text)
    → is_some (run (nodes true q) (rest_of s))
      ≡ segments_match (after_first (segments q)) (after_first (segments s))

abbrev Begun : Text → Type 0
Begun q =
    is_well_formed beginning q ≡ true
    → (s : Text) → is_some (run (nodes false q) s) ≡ segments_match (segments q) (segments s)

abbrev Inside : Text → Type 0
Inside q =
    is_well_formed within q ≡ true
    → (s : Text)
    → is_some (run (nodes false q) s) ≡ (
        text_eq (first_of q) (first_of s)
        && segments_match (after_first (segments q)) (after_first (segments s)))

Begun-nil : Begun []
Begun-nil h s = end_matches s ∙ sym (rw (segments-first_of s))

Begun-literal :
    (c : ℕ) (q : Text)
    → is_slash c ≡ false
    → eqb c b':' ≡ false
    → Inside q
    → is_well_formed within q ≡ true
    → (s : Text)
    → is_some (run (literal c ∷ nodes false q) s)
      ≡ segments_match (in_first c (segments q)) (segments s)
Begun-literal c q k colon h w s =
    literal_matches c q (nodes false q) k (h w) s
    ∙ sym (rw (segments-first_of q, segments-first_of s, colon))

Begun_name :
    (c : ℕ) (q : Text)
    → eqb c b':' ≡ true
    → starts_segment q ≡ true
    → Named q
    → is_well_formed naming q ≡ true
    → (s : Text)
    → is_some (run (group ∷ nodes true q) s) ≡ segments_match (in_first c (segments q)) (segments s)
unfolding run
Begun_name c q colon named h w s =
    run_group-rest (run (nodes true q)) [] s (nodes_closed q)
    ∙ ap (λ b. starts_segment s && b) (h w s)
    ∙ sym (
        rw
          (segments-first_of q, segments-first_of s, colon, sym (starts_segment-first_of q) ∙ named)
          (ap (λ b. b && segments_match (after_first (segments q)) (after_first (segments s)))
            (sym (starts_segment-first_of s))))

has_text : (q : Text) → starts_segment q ≡ true → is_some_text q ≡ true
has_text [] h = absurd (cc h)
has_text (c ∷ q) h = refl

Begun_other :
    (c : ℕ) (q : Text)
    → is_slash c ≡ false
    → Named q
    → Inside q
    → (if eqb c b':' then starts_segment q && is_well_formed naming q else is_well_formed within q)
      ≡ true
    → (s : Text)
    → is_some (
        run
          (if eqb c b':' && is_some_text q then group ∷ nodes true q else literal c ∷ nodes false q)
          s)
      ≡ segments_match (in_first c (segments q)) (segments s)
Begun_other c q f named inside h s = elim (Bool-cases (eqb c b':')) [
  | inl colon ↦
      let w : (starts_segment q && is_well_formed naming q) ≡ true = rw colon at h in
      let starts : starts_segment q ≡ true = ground arith in
      let name : is_well_formed naming q ≡ true = ground arith in
      rw (colon, has_text q starts) (Begun_name c q colon starts named name s)
  | inr plain_one ↦ rw plain_one (Begun-literal c q f plain_one inside (rw plain_one at h) s)
]

matches : (q : Text) → Named q × Begun q × Inside q
matches [] = ((λ h s. rest_ends s), Begun-nil, (λ h s. end_matches s))
matches (c ∷ q) =
    let (named, begun, inside) = matches q in
    elim (Bool-cases (is_slash c)) [
      | inl t ↦ rw t (
        (λ h s. rest_goes_on q (nodes false q) (begun h) s),
        (λ h s. slash_matches q (nodes false q) (begun h) s ∙ sym (rw (segments-first_of s))),
        (λ h s. slash_matches q (nodes false q) (begun h) s),
      )
      | inr f ↦ rw f (
        (λ h s. rw (after_first-in_first c (segments q)) (named h s)),
        (λ h s. Begun_other c q f named inside h s),
        (λ h s.
            let colon : eqb c b':' ≡ false = ground arith in
            let w : is_well_formed within q ≡ true = ground arith in
            rw (colon, after_first-in_first c (segments q))
              (literal_matches c q (nodes false q) f (inside w) s)),
      )
    ]

with_params_some :
    (names : List Text) (r : Option (List Text)) → is_some (with_params names r) ≡ is_some r
with_params_some names none = refl
with_params_some names (some vs) = refl

-- For a pattern without a special character of regular expressions, whose colons stand at the
-- beginning of a segment and before a name, `matchPath` matches a path exactly if the two have equally many segments and each
-- segment of the path is that of the pattern, or is any that is not empty where the pattern has a
-- parameter.
pub match_path-segments_match :
    (pattern path : Text)
    → is_simple pattern ≡ true
    → is_well_formed beginning pattern ≡ true
    → is_some (match_path pattern path) ≡ segments_match (segments pattern) (segments path)
unfolding match_path path_to_regex
match_path-segments_match pattern path simple proper =
    with_params_some _ (run (compile plain (path_to_regex pattern)) path)
    ∙ ap (λ ns. is_some (run ns path)) (compile-nodes false pattern simple)
    ∙ (matches pattern).1 proper path
