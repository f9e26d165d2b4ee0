-- ===== src/Config/Message/Mentions.antt =====
-- internal/config/config.go: the text of a validation error mentions every entry.
use mathlib.Core.List.{append_assoc, append-nil}
use forgery.Base.{
  ℕ, Str, text, ◌≡◌, refl, sym, ap, subst, ◌∙◌, List, [], ◌∷◌, ◌++◌, map, join, In, inl, inr,
}
use forgery.Config.{Key, ErrValidation}
use forgery.Config.Message.{part, missing_text, invalid_text, error_text}

-- The text has the other as a part.
abbrev pub Mentions : Str → Str → Type 0
Mentions s a = (before : Str) × (after : Str) × (s ≡ before ++ (a ++ after))

Mentions-append : (s t a : Str) → Mentions t a → Mentions (s ++ t) a
Mentions-append s t a (before, after, e) =
    (s ++ before, after, ap (λ x. s ++ x) e ∙ sym (append_assoc s before (a ++ after)))

Mentions-front : (s t a : Str) → Mentions s a → Mentions (s ++ t) a
Mentions-front s t a (before, after, e) = (
  before,
  after ++ t,
  ap (λ x. x ++ t) e
      ∙ (append_assoc before (a ++ after) t ∙ ap (λ x. before ++ x) (append_assoc a after t)),
)

Mentions-trans : (s t a : Str) → Mentions s t → Mentions t a → Mentions s a
Mentions-trans s t a (before, after, e) m =
    subst (λ x. Mentions x a) (sym e)
      (Mentions-append before (t ++ after) a (Mentions-front t after a m))

Mentions-refl : (a : Str) → Mentions a a
Mentions-refl a = ([], [], sym (append-nil a))

-- A joined list mentions each of its items.
join-Mentions : (sep : Str) (ps : List Str) (a : Str) → In a ps → Mentions (join sep ps) a
unfolding join
join-Mentions sep [] a i = absurd i
join-Mentions sep (p ∷ []) a (inl same) = subst (λ x. Mentions p x) same (Mentions-refl p)
join-Mentions sep (p ∷ []) a (inr i) = absurd i
join-Mentions sep (p ∷ q ∷ ps) a (inl same) =
    Mentions-front (p ++ sep) (join sep (q ∷ ps)) a
      (Mentions-front p sep a (subst (λ x. Mentions p x) same (Mentions-refl p)))
join-Mentions sep (p ∷ q ∷ ps) a (inr i) =
    Mentions-append (p ++ sep) (join sep (q ∷ ps)) a (join-Mentions sep (q ∷ ps) a i)

In-map : (f : Key → Str) (k : Key) (ks : List Key) → In k ks → In (f k) (map f ks)
In-map f k [] i = absurd i
In-map f k (x ∷ ks) (inl same) = inl (ap f same)
In-map f k (x ∷ ks) (inr i) = inr (In-map f k ks i)

part-Mentions :
    (title : Str) (entries : List Str) (a : Str)
    → In a entries
    → (p : Str) × In p (part title entries) × Mentions p a
part-Mentions title [] a i = absurd i
part-Mentions title (x ∷ entries) a i = (
  title ++ join (text ", ") (x ∷ entries),
  inl refl,
  Mentions-append title (join (text ", ") (x ∷ entries)) a
      (join-Mentions (text ", ") (x ∷ entries) a i),
)

pub In-left : {A : Type 0} (a : A) (xs ys : List A) → In a xs → In a (xs ++ ys)
In-left a [] ys i = absurd i
In-left a (x ∷ xs) ys (inl same) = inl same
In-left a (x ∷ xs) ys (inr i) = inr (In-left a xs ys i)

pub In-right : {A : Type 0} (a : A) (xs ys : List A) → In a ys → In a (xs ++ ys)
In-right a [] ys i = i
In-right a (x ∷ xs) ys i = inr (In-right a xs ys i)

module _ (decimal : ℕ → Str) (quote : Str → Str) (v : ErrValidation) where
  abbrev missing_part : List Str
  missing_part =
      part (text "missing required configuration: ") (map (missing_text decimal quote) v.missing)

  abbrev invalid_part : List Str
  invalid_part =
      part (text "invalid configuration values: ") (map (invalid_text decimal quote) v.invalid)

  -- the text of an error mentions all of its entries
  pub Mentions-missing :
      (k : Key)
      → In k v.missing
      → Mentions (error_text decimal quote v) (missing_text decimal quote k)
  unfolding error_text
  Mentions-missing k i =
      let (p, j, m) =
        part-Mentions (text "missing required configuration: ") _ _
          (In-map (missing_text decimal quote) k v.missing i) in
      Mentions-trans _ p _
        (join-Mentions (text "; ") (missing_part ++ invalid_part) p
          (In-left p missing_part invalid_part j))
        m

  pub Mentions-invalid :
      (k : Key)
      → In k v.invalid
      → Mentions (error_text decimal quote v) (invalid_text decimal quote k)
  unfolding error_text
  Mentions-invalid k i =
      let (p, j, m) =
        part-Mentions (text "invalid configuration values: ") _ _
          (In-map (invalid_text decimal quote) k v.invalid i) in
      Mentions-trans _ p _
        (join-Mentions (text "; ") (missing_part ++ invalid_part) p
          (In-right p missing_part invalid_part j))
        m
