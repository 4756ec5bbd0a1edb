-- ===== src/Write/Plain.antt =====
-- internal/write/buffer.go: buffered writes of one time-to-live without operations of the log.
use shock_absorber.Prelude.{
  ◌≡◌, refl, ap, sym, ◌∙◌, ℤ, pos, negsuc, true, List, [], ◌∷◌, ◌++◌, All, none, arith,
}
use shock_absorber.Write.Buffer.{BufferedWrite, same_ttl, operations_of}
use shock_absorber.Write.Flushes.{OfTtl}

-- A write with the time-to-live and no operation of the log.
abbrev pub IsPlain : ℤ → BufferedWrite → Type 0
IsPlain ttl w = (w.ttl ≡ ttl) × (w.operation ≡ none)

same_ttl_refl : (ttl : ℤ) → same_ttl ttl ttl ≡ true
same_ttl_refl (pos n) = ground arith
same_ttl_refl (negsuc n) = ground arith

pub plain-OfTtl :
    (ttl : ℤ) (w : BufferedWrite) (ws : List BufferedWrite)
    → IsPlain ttl w
    → All (IsPlain ttl) ws
    → All (OfTtl w.ttl) ws
plain-OfTtl ttl w [] p ps = tt
plain-OfTtl ttl w (x ∷ xs) p (q, qs) =
    (ap (same_ttl w.ttl) (q.0 ∙ sym p.0) ∙ same_ttl_refl w.ttl, plain-OfTtl ttl w xs p qs)

pub plain_operations :
    (ttl : ℤ) (ws : List BufferedWrite) → All (IsPlain ttl) ws → operations_of ws ≡ []
unfolding operations_of
plain_operations ttl [] ps = refl
plain_operations ttl (w ∷ ws) (p, ps) = rw (p.1, plain_operations ttl ws ps) refl

pub IsPlain-append :
    (ttl : ℤ) (ws more : List BufferedWrite)
    → All (IsPlain ttl) ws
    → All (IsPlain ttl) more
    → All (IsPlain ttl) (ws ++ more)
IsPlain-append ttl [] more ps qs = qs
IsPlain-append ttl (w ∷ ws) more (p, ps) qs = (p, IsPlain-append ttl ws more ps qs)
