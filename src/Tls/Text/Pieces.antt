-- ===== src/Tls/Text/Pieces.antt =====
-- How a text is cut into words and lines, as python/gohttpx.py does it, and texts that are whole.
use go_httpx.Prelude.{
  ℕ, Bool, true, false, List, [], ◌∷◌, ◌++◌, all, All, ◌≡◌, refl, ap, ◌∙◌, arith,
}
use go_httpx.Tls.Text.{Text, is_space, is_break, pieces, is_hex}

pub hex_no_space : (c : ℕ) → is_hex c ≡ true → is_space c ≡ false
hex_no_space c h = ground arith

pub hex_no_break : (c : ℕ) → is_hex c ≡ true → is_break c ≡ false
hex_no_break c h = ground arith

module _ (cuts : ℕ → Bool) where
  unfoldable pub Whole : Text → Type 0
  Whole w = All (λ c. cuts c ≡ false) w

  pub pieces_one : (w : Text) → Whole w → pieces cuts w ≡ w ∷ []
  unfolding Whole
  pieces_one [] h = refl
  pieces_one (c ∷ w) (one, rest) = rw (one, pieces_one w rest) refl

  pub pieces_cut :
      (w : Text) (s : ℕ) (more : Text)
      → Whole w
      → cuts s ≡ true
      → pieces cuts (w ++ s ∷ more) ≡ w ∷ pieces cuts more
  unfolding Whole
  pieces_cut [] s more h e = rw (e) refl
  pieces_cut (c ∷ w) s more (one, rest) e = rw (one, pieces_cut w s more rest e) refl

-- The texts with `s` between them.
abbrev pub join : ℕ → List Text → Text
join s [] = []
join s (w ∷ []) = w
join s (w ∷ v ∷ ws) = w ++ s ∷ join s (v ∷ ws)

pub pieces-join :
    (cuts : ℕ → Bool) (s : ℕ) (w : Text) (ws : List Text)
    → cuts s ≡ true
    → All (Whole cuts) (w ∷ ws)
    → pieces cuts (join s (w ∷ ws)) ≡ w ∷ ws
pieces-join cuts s w [] e (one, rest) = pieces_one cuts w one
pieces-join cuts s w (v ∷ ws) e (one, rest) =
    pieces_cut cuts w s (join s (v ∷ ws)) one e ∙ ap (λ x. w ∷ x) (pieces-join cuts s v ws e rest)

pub Whole-append :
    (cuts : ℕ → Bool) (w v : Text) → Whole cuts w → Whole cuts v → Whole cuts (w ++ v)
unfolding Whole
Whole-append cuts [] v h k = k
Whole-append cuts (c ∷ w) v (one, rest) k = (one, Whole-append cuts w v rest k)

pub Whole-join :
    (cuts : ℕ → Bool) (s : ℕ) (ws : List Text)
    → cuts s ≡ false
    → All (Whole cuts) ws
    → Whole cuts (join s ws)
unfolding Whole
Whole-join cuts s [] e h = tt
Whole-join cuts s (w ∷ []) e (one, rest) = one
Whole-join cuts s (w ∷ v ∷ ws) e (one, rest) =
    Whole-append cuts w (s ∷ join s (v ∷ ws)) one (e, Whole-join cuts s (v ∷ ws) e rest)

-- A word of hexadecimal digits is cut neither into words nor into lines.
module _ (w : Text) (h : all is_hex w ≡ true) where
  pub hex-Whole : (cuts : ℕ → Bool) → ((c : ℕ) → is_hex c ≡ true → cuts c ≡ false) → Whole cuts w
  unfolding Whole
  hex-Whole cuts free = go w h
    where
      go : (v : Text) → all is_hex v ≡ true → All (λ c. cuts c ≡ false) v
      go [] h = tt
      go (c ∷ v) h =
          let both : (is_hex c ≡ true) × (all is_hex v ≡ true) = ground arith in
          (free c both.0, go v both.1)
