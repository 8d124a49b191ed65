-- ===== src/Gateway/Health/Keys.antt =====
-- What two routes with the same key have in common.
use Prim.Native.Char.{code}
use Prim.Native.String.{[], ◌∷◌}
use text.Mathlib.TextLemmas.{nil-append, cons-append, append_cancel_left}
use text.Mathlib.TextEquality.{eq_iff, Char-path}
use llmadapter.Prelude.{
  ℕ, String, ◌<>◌, ◌≡◌, ◌≢◌, refl, sym, ◌∙◌, ap, Bool, true, false, ◌&&◌, ◌||◌, arith, ◌==◌, nat_eq,
  string_eq, if◌then◌else◌,
}
use llmadapter.Router.Types.{Route}
use llmadapter.Gateway.Health.{route_key}

abbrev NoSlash : String → Type 0
NoSlash [] = Unit
NoSlash (c ∷ s) = (code c ≢ b'/') × NoSlash s

abbrev pub has_slash : String → Bool
has_slash [] = false
has_slash (c ∷ s) = code c == b'/' || has_slash s

has_slash-NoSlash : (s : String) → has_slash s ≡ false → NoSlash s
has_slash-NoSlash [] h = tt
has_slash-NoSlash (c ∷ s) h = (ground (arith, h), has_slash-NoSlash s (ground (arith, h)))

-- The code of the first character, and the rest.
abbrev head : String → ℕ
head [] = 0
head (c ∷ s) = code c

abbrev tail : String → String
tail [] = ""
tail (c ∷ s) = s

head-slash : (u : String) → head ("" <> ("/" <> u)) ≡ b'/'
head-slash u = rw (nil-append ("/" <> u)) (ap head (cons-append "/" "" u))

-- Texts up to their first slash, and behind it.
split :
    (s t u v : String)
    → NoSlash s
    → NoSlash t
    → s <> ("/" <> u) ≡ t <> ("/" <> v)
    → (s ≡ t) × (u ≡ v)
split [] [] u v hs ht e =
    (refl, append_cancel_left "/" u v (append_cancel_left "" ("/" <> u) ("/" <> v) e))
split [] (d ∷ t) u v hs ht e =
    absurd (ht.0 (sym (ap head (cons-append d t ("/" <> v))) ∙ sym (ap head e) ∙ head-slash u))
split (c ∷ s) [] u v hs ht e =
    absurd (hs.0 (sym (ap head (cons-append c s ("/" <> u))) ∙ ap head e ∙ head-slash v))
split (c ∷ s) (d ∷ t) u v hs ht e =
    let both = sym (cons-append c s ("/" <> u)) ∙ e ∙ cons-append d t ("/" <> v) in
    let (same, rest) = split s t u v hs.1 ht.1 (ap tail both) in
    (ap (λ x. x ∷ s) (Char-path c d (ap head both)) ∙ ap (λ x. d ∷ x) same, rest)

-- The model that the provider is asked for: its own name for it, or the public one.
abbrev pub model_of : Route → String
model_of r = if r.native_model == "" then r.public_model else r.native_model

-- The same provider, API and model.
abbrev pub same_target : Route → Route → Bool
same_target r r' =
    r.provider_name == r'.provider_name
    && r.target_api == r'.target_api
    && model_of r == model_of r'

-- No slash in the names of the provider and the API; the model may have some.
abbrev pub HasPlainNames : Route → Type 0
HasPlainNames r = (has_slash r.provider_name ≡ false) × (has_slash r.target_api ≡ false)

Bool-path : (a b : Bool) → (a ≡ true → b ≡ true) → (b ≡ true → a ≡ true) → a ≡ b
Bool-path true b f g = sym (f refl)
Bool-path false true f g = g refl
Bool-path false false f g = refl

same_target-equal :
    (r r' : Route)
    → same_target r r' ≡ true
    → (r.provider_name ≡ r'.provider_name)
      × (r.target_api ≡ r'.target_api)
      × (model_of r ≡ model_of r')
same_target-equal r r' h = (
  (eq_iff r.provider_name r'.provider_name).0 (ground (arith, h)),
  (eq_iff r.target_api r'.target_api).0 (ground (arith, h)),
  (eq_iff (model_of r) (model_of r')).0 (ground (arith, h)),
)

route_key-equal :
    (r r' : Route)
    → HasPlainNames r
    → HasPlainNames r'
    → route_key r ≡ route_key r'
    → same_target r r' ≡ true
unfolding route_key
route_key-equal r r' (p, a) (p', a') e =
    let (provider, rest) =
      split r.provider_name r'.provider_name _ _ (has_slash-NoSlash r.provider_name p)
        (has_slash-NoSlash r'.provider_name p') e in
    let (api, model) =
      split r.target_api r'.target_api _ _ (has_slash-NoSlash r.target_api a)
        (has_slash-NoSlash r'.target_api a') rest in
    rw
      (
        (eq_iff r.provider_name r'.provider_name).1 provider,
        (eq_iff r.target_api r'.target_api).1 api,
      )
      ((eq_iff (model_of r) (model_of r')).1 model)

-- Routes with plain names have the same key exactly if they have the same target.
pub route_key-same_target :
    (r r' : Route)
    → HasPlainNames r
    → HasPlainNames r'
    → (route_key r == route_key r') ≡ same_target r r'
unfolding route_key
route_key-same_target r r' h h' =
    Bool-path (route_key r == route_key r') (same_target r r')
      (λ e. route_key-equal r r' h h' ((eq_iff (route_key r) (route_key r')).0 e))
      (λ e.
        let (provider, api, model) = same_target-equal r r' e in
        (eq_iff (route_key r) (route_key r')).1 (
          ap (λ n. n <> ("/" <> (r.target_api <> ("/" <> model_of r)))) provider
          ∙ ap (λ n. r'.provider_name <> ("/" <> (n <> ("/" <> model_of r)))) api
          ∙ ap (λ n. r'.provider_name <> ("/" <> (r'.target_api <> ("/" <> n)))) model))
