-- ===== src/Gateway/Path.antt =====
-- gateway/utils/path-matcher.util.ts: a route pattern is turned into the text of a regular
-- expression, which the JavaScript engine compiles and runs. The texts are lists of code points. Of
-- regular expressions the model has what `pathToRegex` builds from a pattern without special
-- characters, as those of the route table are: literals, `\/`, and the group `([^\/]+)`, which is
-- tried longest first. It says nothing of a pattern with one of `( \ . * + ? ^ $ { } ) | [ ]`.
use msa_tuto_server.Base.{
  ℕ, zero, suc, String, Bool, true, false, ◌&&◌, ◌||◌, not, Option, none, some, List, [], ◌∷◌, ◌++◌,
  eqb, if◌then◌else◌,
}
use Prim.Native.Char.{code}
use Prim.Native.String.{String}

abbrev pub Text : Type 0
Text = List ℕ

-- The code points of a text.
abbrev pub codes : String → Text
codes String.[] = []
codes (String.◌∷◌ c s) = code c ∷ codes s

abbrev pub is_slash : ℕ → Bool
is_slash c = eqb c b'/'

-- `.replace(/\//g, '\\/')`
unfoldable pub escape_slashes : Text → Text
escape_slashes [] = []
escape_slashes (c ∷ s) =
    let rest = escape_slashes s in if is_slash c then b'\\' ∷ b'/' ∷ rest else c ∷ rest

abbrev pub text_eq : Text → Text → Bool
text_eq [] [] = true
text_eq [] (d ∷ t) = false
text_eq (c ∷ s) [] = false
text_eq (c ∷ s) (d ∷ t) = eqb c d && text_eq s t

-- `[^\/]+` matches at the head of the text.
abbrev pub starts_name : Text → Bool
starts_name [] = false
starts_name (c ∷ s) = if is_slash c then false else true

-- A parameter `:([^\/]+)` begins here.
abbrev pub is_param : ℕ → Text → Bool
is_param c s = eqb c b':' && starts_name s

abbrev pub group_text : Text
group_text = codes "([^\\/]+)"

-- `.replace(/:([^\/]+)/g, '([^\\/]+)')`; the flag tells that a parameter's name is being passed over.
unfoldable pub replace_params : Bool → Text → Text
replace_params passing [] = []
replace_params passing (c ∷ s) =
    (if passing && not (is_slash c) then [] else if is_param c s then group_text else c ∷ [])
    ++ replace_params (not (is_slash c) && (passing || is_param c s)) s

unfoldable pub path_to_regex : Text → Text
unfolding escape_slashes replace_params
path_to_regex path = replace_params false (escape_slashes path)

pub data Node : Type 0 where
  literal : ℕ → Node
  group : Node

-- Where the compiler stands: at a new item, after a backslash, or `n` characters before the end of a
-- group.
pub data Mode : Type 0 where
  plain escaped : Mode
  inside : ℕ → Mode

abbrev emitted : Mode → ℕ → List Node
emitted plain c = if eqb c b'(' then group ∷ [] else if eqb c b'\\' then [] else literal c ∷ []
emitted escaped c = literal c ∷ []
emitted (inside n) c = []

abbrev next_mode : Mode → ℕ → Mode
next_mode plain c = if eqb c b'(' then inside 7 else if eqb c b'\\' then escaped else plain
next_mode escaped c = plain
next_mode (inside zero) c = plain
next_mode (inside (suc zero)) c = plain
next_mode (inside (suc (suc n))) c = inside (suc n)

-- The regular expression `^…$` as a sequence, for a pattern without special characters.
unfoldable pub compile : Mode → Text → List Node
compile mode [] = []
compile mode (c ∷ s) = emitted mode c ++ compile (next_mode mode c) s

abbrev pub or_try : {A : Type 0} → Option A → Option A → Option A
or_try none y = y
or_try (some a) y = some a

abbrev pub captured : Text → Option (List Text) → Option (List Text)
captured [] r = none
captured (c ∷ s) none = none
captured (c ∷ s) (some vs) = some ((c ∷ s) ∷ vs)

-- `([^\/]+)` after `taken`: a longer match is tried first, then the rest of the expression `k`.
unfoldable pub run_group : (Text → Option (List Text)) → Text → Text → Option (List Text)
run_group k taken [] = captured taken (k [])
run_group k taken (c ∷ s) =
    let longer = run_group k (taken ++ c ∷ []) s in
    let here = captured taken (k (c ∷ s)) in if is_slash c then here else or_try longer here

-- The captures of a match of the whole text.
unfoldable pub run : List Node → Text → Option (List Text)
unfolding run_group
run [] [] = some []
run [] (c ∷ s) = none
run (literal d ∷ ns) [] = none
run (literal d ∷ ns) (c ∷ s) = let rest = run ns s in if eqb c d then rest else none
run (group ∷ ns) s = run_group (run ns) [] s

-- The names of the parameters, `pattern.match(/:([^\/]+)/g)` without the colons.
unfoldable pub param_names : Option Text → Text → List Text
param_names none [] = []
param_names (some name) [] = name ∷ []
param_names none (c ∷ s) = param_names (if is_param c s then some [] else none) s
param_names (some name) (c ∷ s) =
    let over = param_names none s in
    let more = param_names (some (name ++ c ∷ [])) s in if is_slash c then name ∷ over else more

abbrev pub Params : Type 0
Params = List (Text × Option Text)

-- `params[name] = value`
abbrev pub put : Text → Option Text → Params → Params
put k v [] = (k, v) ∷ []
put k v ((j, w) ∷ ps) = let rest = put k v ps in if text_eq j k then (k, v) ∷ ps else (j, w) ∷ rest

-- The loop over the names; a value that is not there is undefined.
unfoldable pub assign : List Text → List Text → Params → Params
assign [] vs ps = ps
assign (n ∷ ns) [] ps = assign ns [] (put n none ps)
assign (n ∷ ns) (v ∷ vs) ps = assign ns vs (put n (some v) ps)

abbrev pub with_params : List Text → Option (List Text) → Option Params
with_params names none = none
with_params names (some values) = some (assign names values [])

-- `matchPath(pattern, path)`
unfoldable pub match_path : Text → Text → Option Params
unfolding path_to_regex compile run param_names assign
match_path pattern path =
    with_params (param_names none pattern) (run (compile plain (path_to_regex pattern)) path)
