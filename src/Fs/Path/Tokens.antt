-- ===== src/Fs/Path/Tokens.antt =====
-- `strtok` on paths.
use cs5600_computer_systems.Prelude.{
  ℕ, ◌≡◌, ◌≢◌, refl, false, List, [], ◌∷◌, ◌++◌, arith, ◌==◌, Bool-cases, inl, inr, Str, append-nil,
  append_assoc, ap, ◌∙◌, map, take, length, take-length, take-append, ap₂, sym, ◌≤◌,
}
use cs5600_computer_systems.Fs.Path.{
  slash, emit, tokens_from, tokens, components, max_path_components,
}
use cs5600_computer_systems.Fs.Dirent.{max_name_len}

-- No byte of the text is a slash.
abbrev pub IsPlain : Str → Type 0
IsPlain [] = Unit
IsPlain (c ∷ r) = (c ≢ slash) × IsPlain r

-- A component of a path: a text with at least one byte and no slash.
abbrev pub IsComponent : Str → Type 0
IsComponent [] = ⊥
IsComponent (c ∷ r) = IsPlain (c ∷ r)

abbrev pub AllComponents : List Str → Type 0
AllComponents [] = Unit
AllComponents (c ∷ cs) = IsComponent c × AllComponents cs

-- The absolute path of some components: each behind a slash.
abbrev pub join : List Str → Str
join [] = []
join (c ∷ cs) = slash ∷ (c ++ join cs)

tokens_from-join :
    (cur : Str) (cs : List Str) → tokens_from cur (join cs) ≡ emit cur (tokens_from [] (join cs))
unfolding tokens_from
tokens_from-join cur [] = refl
tokens_from-join cur (c ∷ cs) = refl

tokens_from-plain :
    (b : ℕ) (t r : Str) → b ≢ slash → tokens_from t (b ∷ r) ≡ tokens_from (t ++ b ∷ []) r
unfolding tokens_from
tokens_from-plain b t r ne =
    let other : (b == slash) ≡ false = ground arith in rw (other, tokens_from)

tokens_from-component :
    (w cur : Str) (cs : List Str)
    → IsPlain w
    → tokens_from cur (w ++ join cs) ≡ emit (cur ++ w) (tokens_from [] (join cs))
tokens_from-component [] cur cs plain = rw append-nil (tokens_from-join cur cs)
tokens_from-component (c ∷ w) cur cs plain =
    tokens_from-plain c cur (w ++ join cs) plain.0
    ∙ tokens_from-component w (cur ++ c ∷ []) cs plain.1
    ∙ ap (λ t. emit t (tokens_from [] (join cs))) (append_assoc cur (c ∷ []) w)

-- Splitting the absolute path of components that are not empty and have no slash gives these
-- components.
pub tokens-join : (cs : List Str) → AllComponents cs → tokens (join cs) ≡ cs
unfolding tokens tokens_from
tokens-join [] h = refl
tokens-join ([] ∷ cs) h = absurd h.0
tokens-join ((c ∷ r) ∷ cs) h =
    tokens_from-component (c ∷ r) [] cs h.0 ∙ ap ((c ∷ r) ∷◌) (tokens-join cs h.1)

-- Reading on from a token that is not finished: it grows, or it is handed out.
emit-AllComponents :
    (cur : Str) (ts : List Str) → IsPlain cur → AllComponents ts → AllComponents (emit cur ts)
emit-AllComponents [] ts plain h = h
emit-AllComponents (c ∷ cur) ts plain h = (plain, h)

IsPlain-snoc : (cur : Str) (c : ℕ) → IsPlain cur → c ≢ slash → IsPlain (cur ++ c ∷ [])
IsPlain-snoc [] c plain ne = (ne, tt)
IsPlain-snoc (b ∷ cur) c plain ne = (plain.0, IsPlain-snoc cur c plain.1 ne)

tokens_from-AllComponents : (path cur : Str) → IsPlain cur → AllComponents (tokens_from cur path)
unfolding tokens_from
tokens_from-AllComponents [] cur plain = emit-AllComponents cur [] plain tt
tokens_from-AllComponents (c ∷ r) cur plain = elim (Bool-cases (c == slash)) [
  | inl hit ↦
      rw (hit, tokens_from)
        (emit-AllComponents cur (tokens_from [] r) plain (tokens_from-AllComponents r [] tt))
  | inr miss ↦
      rw (miss, tokens_from)
        (tokens_from-AllComponents r (cur ++ c ∷ []) (IsPlain-snoc cur c plain (ground arith)))
]

-- Every token of every path has at least one byte and no slash.
pub tokens-AllComponents : (path : Str) → AllComponents (tokens path)
unfolding tokens
tokens-AllComponents path = tokens_from-AllComponents path [] tt

-- No component is longer than a name may be.
abbrev pub Fits : List Str → Type 0
Fits [] = Unit
Fits (c ∷ cs) = (length c ≤ max_name_len) × Fits cs

map-take-Fits : (cs : List Str) → Fits cs → map (take max_name_len) cs ≡ cs
map-take-Fits [] h = refl
map-take-Fits (c ∷ cs) h = ap₂ ◌∷◌ (take-length max_name_len c h.0) (map-take-Fits cs h.1)

-- A path of at most ten components, none longer than 27 bytes, is split into just those.
pub components-join :
    (cs : List Str)
    → AllComponents cs
    → Fits cs
    → length cs ≤ max_path_components
    → components (join cs) ≡ cs
unfolding components
components-join cs h fits short =
    ap (λ ts. map (take max_name_len) (take max_path_components ts)) (tokens-join cs h)
    ∙ ap (map (take max_name_len)) (take-length max_path_components cs short)
    ∙ map-take-Fits cs fits

-- The components behind the tenth are dropped.
pub components-join_long :
    (cs more : List Str)
    → AllComponents (cs ++ more)
    → Fits cs
    → length cs ≡ max_path_components
    → components (join (cs ++ more)) ≡ cs
unfolding components
components-join_long cs more h fits ten =
    ap (λ ts. map (take max_name_len) (take max_path_components ts)) (tokens-join (cs ++ more) h)
    ∙ ap (λ n. map (take max_name_len) (take n (cs ++ more))) (sym ten)
    ∙ ap (map (take max_name_len)) (take-append cs more)
    ∙ map-take-Fits cs fits
