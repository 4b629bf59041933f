-- ===== src/EnvDo/Control/Overlay.antt =====
-- setOverlay of broker/src/env-do.ts: the overlay's preview.
use gha_mcp_host.Prelude.{
  ◌+◌, ◌≡◌, refl, sym, ap, ◌∙◌, Bool, true, false, [], ◌∷◌, ◌++◌, some, ◌==◌, if◌then◌else◌,
  Bool-cases, inl, inr, get_or_else,
}
use gha_mcp_host.Text.{Text, codes}
use gha_mcp_host.EnvDo.{Env}
use gha_mcp_host.EnvDo.Control.{is_line_end, mask, set_overlay}

abbrev pub OneLine : Text → Type 0
OneLine [] = Unit {0}
OneLine (c ∷ cs) = (is_line_end c ≡ false) × OneLine cs

-- Behind the = of a line nothing of that line is left.
hidden : (v rest : Text) → OneLine v → mask true (v ++ rest) ≡ mask true rest
unfolding mask
hidden [] rest l = refl
hidden (c ∷ cs) rest l = rw (l.0) (hidden cs rest l.1)

-- Whether the scan stands behind an = when a text is through.
mode : Bool → Text → Bool
mode hiding [] = hiding
mode true (c ∷ cs) = mode (if is_line_end c then false else true) cs
mode false (c ∷ cs) = mode (if c == b'=' then true else false) cs

mask-append :
    (hiding : Bool) (s t : Text) → mask hiding (s ++ t) ≡ mask hiding s ++ mask (mode hiding s) t
unfolding mask mode
mask-append hiding [] t = refl
mask-append true (c ∷ cs) t = elim (Bool-cases (is_line_end c)) [
  | inl e ↦ rw e (ap (λ r. c ∷ r) (mask-append false cs t))
  | inr e ↦ rw e (mask-append true cs t)
]
mask-append false (c ∷ cs) t = elim (Bool-cases (c == b'=')) [
  | inl e ↦ rw e (ap (λ r. codes "=***" ++ r) (mask-append true cs t))
  | inr e ↦ rw e (ap (λ r. c ∷ r) (mask-append false cs t))
]

behind_equals :
    (hiding : Bool) (v w rest : Text)
    → OneLine v
    → OneLine w
    → mask hiding (b'=' ∷ (v ++ rest)) ≡ mask hiding (b'=' ∷ (w ++ rest))
unfolding mask is_line_end
behind_equals true v w rest l m = hidden v rest l ∙ sym (hidden w rest m)
behind_equals false v w rest l m =
    ap (λ r. codes "=***" ++ r) (hidden v rest l ∙ sym (hidden w rest m))

-- Two overlays that differ only in a value, that is in what stands behind an = on one line, leave the
-- same environment but for the action that carries the overlay to the runner.
pub set_overlay_hides_values :
    (e : Env) (pre v w rest : Text)
    → OneLine v
    → OneLine w
    → let a = (set_overlay e (pre ++ b'=' ∷ (v ++ rest))).0 in
      let b = (set_overlay e (pre ++ b'=' ∷ (w ++ rest))).0 in
      (a.meta ≡ b.meta) × (a.commands ≡ b.commands) × (a.queue ≡ b.queue)
unfolding set_overlay
set_overlay_hides_values e pre v w rest l m =
    let same : mask false (pre ++ b'=' ∷ (v ++ rest)) ≡ mask false (pre ++ b'=' ∷ (w ++ rest)) =
      mask-append false pre (b'=' ∷ (v ++ rest))
      ∙ ap (λ r. mask false pre ++ r) (behind_equals (mode false pre) v w rest l m)
      ∙ sym (mask-append false pre (b'=' ∷ (w ++ rest))) in
    (
      ap
          (λ p. record (e.meta) {
            overlay_version = some (get_or_else e.meta.overlay_version 0 + 1);
            overlay_preview = some p;
          })
          same,
      refl,
      refl,
    )
