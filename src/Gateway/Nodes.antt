-- ===== src/Gateway/Nodes.antt =====
-- The regular expression of a route pattern, item by item: what `pathToRegex` and the compiler of the
-- expression make of it.
use msa_tuto_server.Base.{
  ℕ, ◌≡◌, refl, ap, Bool, true, false, ◌&&◌, ◌||◌, not, List, [], ◌∷◌, eqb, if◌then◌else◌,
  Bool-cases, inl, inr, arith,
}
use msa_tuto_server.Gateway.Path.{
  Text, codes, is_slash, escape_slashes, replace_params, starts_name, Node, literal, group, plain,
  compile,
}

-- The characters that mean more than themselves in an expression, `( \ . * + ? ^ $ { } ) | [ ]`.
abbrev pub specials : Text
specials = codes "(\\.*+?^${})|[]"

abbrev pub is_one_of : Text → ℕ → Bool
is_one_of [] c = false
is_one_of (d ∷ ds) c = eqb c d || is_one_of ds c

-- The text has none of them.
abbrev pub is_simple : Text → Bool
is_simple [] = true
is_simple (c ∷ s) = not (is_one_of specials c) && is_simple s

-- A character that is none of them begins no item of the modelled expressions.
not_special : (c : ℕ) → is_one_of specials c ≡ false → (eqb c b'(' ≡ false) × (eqb c b'\\' ≡ false)
not_special c h = (ground arith, ground arith)

abbrev pub is_some_text : Text → Bool
is_some_text [] = false
is_some_text (c ∷ s) = true

-- The items of a pattern: a parameter, which is passed over up to the next slash, is a group.
abbrev pub nodes : Bool → Text → List Node
nodes passing [] = []
nodes passing (c ∷ s) =
    let after_slash = nodes false s in
    let in_name = nodes true s in
    if is_slash c
    then literal b'/' ∷ after_slash
    else if passing
    then in_name
    else if eqb c b':' && is_some_text s
    then group ∷ in_name
    else literal c ∷ after_slash

starts_escaped : (s : Text) → starts_name (escape_slashes s) ≡ is_some_text s
unfolding escape_slashes
starts_escaped [] = refl
starts_escaped (c ∷ s) = elim (Bool-cases (is_slash c)) [ inl t ↦ rw t | inr f ↦ rw (f, f) ]

-- The compiled expression of a pattern is the sequence of its items.
pub compile-nodes :
    (passing : Bool) (p : Text)
    → is_simple p ≡ true
    → compile plain (replace_params passing (escape_slashes p)) ≡ nodes passing p
unfolding escape_slashes replace_params compile
compile-nodes passing [] h = refl
compile-nodes true (c ∷ s) h =
    let k : is_simple s ≡ true = ground arith in
    elim (Bool-cases (is_slash c)) [
      | inl t ↦ rw t (ap (λ l. literal b'/' ∷ l) (compile-nodes false s k))
      | inr f ↦ rw (f, f) (compile-nodes true s k)
    ]
compile-nodes false (c ∷ s) h =
    let k : is_simple s ≡ true = ground arith in
    let (paren, backslash) = not_special c (ground arith) in
    elim (Bool-cases (is_slash c)) [
      | inl t ↦ rw t (ap (λ l. literal b'/' ∷ l) (compile-nodes false s k))
      | inr f ↦ elim (Bool-cases (eqb c b':' && is_some_text s)) [
        | inl g ↦ rw (f, starts_escaped s, g, f) (ap (λ l. group ∷ l) (compile-nodes true s k))
        | inr g ↦
            rw (f, starts_escaped s, g, f, paren, backslash)
              (ap (λ l. literal c ∷ l) (compile-nodes false s k))
      ]
    ]
