-- ===== src/Routes/Patterns.antt =====
-- backend/internal/ops/ops.go, MatchModel: what a pattern of a route group stands for.
use Prim.Native.Char.{Char, code}
use Prim.Native.String.append
use Prim.Native.String.{◌++◌ as str_append}
use text.Mathlib.TextBridge.{IsPrefix}
use text.Mathlib.TextEquality.{Char-path, starts_with_iff}
use simple_up_manage.Prelude.{
  ◌≡◌, ◌⊎◌, ◌↔◌, refl, sym, ap, subst, inl, inr, String, true, Option, none, some, str_eq, eq_iff,
  arith, Bool-cases, Option-cases,
}
use simple_up_manage.Prelude.Text.{trim_space}
use simple_up_manage.Domain.Provider.{TextLib}
use simple_up_manage.Routes.Groups.{without_star, match_model, prefix_matches}

without_star-cons :
    (c : Char) (s p : String)
    → without_star s ≡ some p
    → without_star (String.◌∷◌ c s) ≡ some (String.◌∷◌ c p)
unfolding without_star
without_star-cons c String.[] p e = ground arith
without_star-cons c (String.◌∷◌ d s) p e = rw e refl

-- A text ends with a star alone, or behind its first character.
without_star-cases :
    (c : Char) (s q : String)
    → without_star (String.◌∷◌ c s) ≡ some q
    → ((s ≡ "") × (code c ≡ b'*') × (q ≡ ""))
      ⊎ ((p : String) × (without_star s ≡ some p) × (q ≡ String.◌∷◌ c p))
unfolding without_star
without_star-cases c String.[] q e = inl (refl, ground arith, ground arith)
without_star-cases c (String.◌∷◌ d s) q e = elim (Option-cases (without_star (String.◌∷◌ d s))) [
  | inl n ↦ ground (arith, n)
  | inr (p, f) ↦ inr (p, f, ground (arith, f))
]

star_alone : without_star "*" ≡ some ""
unfolding without_star
star_alone = refl

starless : (p : String) → without_star "" ≡ some p → "" ≡ str_append p "*"
unfolding without_star
starless p e = ground arith

-- Behind a star that is put there, the text is found again.
without_star-append : (p : String) → without_star (str_append p "*") ≡ some p
without_star-append String.[] = star_alone
without_star-append (String.◌∷◌ c p) =
    rw (append.cons c p "*") (without_star-cons c (str_append p "*") p (without_star-append p))

append-without_star : (s p : String) → without_star s ≡ some p → s ≡ str_append p "*"
append-without_star String.[] p e = starless p e
append-without_star (String.◌∷◌ c s) q e = elim (without_star-cases c s q e) [
  | inl (f, g, h) ↦ rw (f, h, Char-path c "*" g) refl
  | inr (p, f, g) ↦
      rw (g, append.cons c p "*") (ap (λ t. String.◌∷◌ c t) (append-without_star s p f))
]

-- Taking the star off a pattern gives a text exactly when the pattern is that text with a star behind
-- it: the two undo each other, and a pattern without a star at its end gives nothing.
without_star_iff : (s p : String) → (without_star s ≡ some p) ↔ (s ≡ str_append p "*")
without_star_iff s p = (
  append-without_star s p,
  λ e. subst (λ t. without_star t ≡ some p) (sym e) (without_star-append p),
)

no_prefix {ℓ} :
    {A : Type ℓ} (o : Option String) (m : String) → o ≡ none → prefix_matches o m ≡ true → A
no_prefix o m n e = ground (arith, n, e)

prefix_matches_iff :
    (p m : String)
    → (prefix_matches (without_star p) m ≡ true)
      ↔ ((q : String) × (p ≡ str_append q "*") × IsPrefix q m)
prefix_matches_iff p m = (
  λ e. elim (Option-cases (without_star p)) [
    | inl n ↦ no_prefix (without_star p) m n e
    | inr (q, f) ↦ (
      q,
      append-without_star p q f,
      (starts_with_iff m q).0 (subst (λ o. prefix_matches o m ≡ true) f e),
    )
  ],
  λ (q, f, g).
      subst (λ t. prefix_matches (without_star t) m ≡ true) (sym f)
        (rw (without_star-append q) ((starts_with_iff m q).1 g)),
)

-- A pattern matches a model, both trimmed and in lower case, exactly when the pattern is a star
-- alone, or equals the model, or is a prefix of the model with a star behind it.
pub match_model_iff :
    (lib : TextLib) (pattern model : String)
    → let p = lib.to_lower (trim_space pattern) in
      let m = lib.to_lower (trim_space model) in
      (match_model lib pattern model ≡ true)
      ↔ ((p ≡ "*") ⊎ ((p ≡ m) ⊎ ((q : String) × (p ≡ str_append q "*") × IsPrefix q m)))
unfolding match_model
match_model_iff lib pattern model =
    let p = lib.to_lower (trim_space pattern) in
    let m = lib.to_lower (trim_space model) in
    (
      λ e. elim (Bool-cases (str_eq p "*")) [
        | inl f ↦ inl ((eq_iff p "*").0 f)
        | inr f ↦ elim (Bool-cases (str_eq p m)) [
          | inl g ↦ inr (inl ((eq_iff p m).0 g))
          | inr g ↦ inr (inr ((prefix_matches_iff p m).0 (ground (arith, e, f, g))))
        ]
      ],
      λ h. elim h [
        | inl f ↦ ground (arith, (eq_iff p "*").1 f)
        | inr (inl f) ↦ ground (arith, (eq_iff p m).1 f)
        | inr (inr f) ↦ ground (arith, (prefix_matches_iff p m).1 f)
      ],
    )
