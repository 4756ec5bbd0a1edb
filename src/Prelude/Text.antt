-- ===== src/Prelude/Text.antt =====
-- `fmt.Sprintf` of texts: the pieces in a row.
use Prim.Native.String.{String, ◌++◌}
use mathlib.Core.Path.{◌≡◌, sym, ◌∙◌}
use mathlib.Core.Logic.{◌≢◌}
use mathlib.Core.List.{List, [], ◌∷◌}
use text.Mathlib.TextLemmas.{
  append_assoc, append_cancel_left, append_cancel_right, append-eq-nil_iff, nil-append, cons≢nil,
}

abbrev pub sprintf : List String → String
sprintf [] = ""
sprintf (x ∷ []) = x
sprintf (x ∷ y ∷ rest) = x ++ sprintf (y ∷ rest)

-- Two keys of one prefix are equal only if what follows is.
pub sprintf_cancel :
    (prefix colon s t : String)
    → sprintf (prefix ∷ colon ∷ s ∷ []) ≡ sprintf (prefix ∷ colon ∷ t ∷ [])
    → s ≡ t
sprintf_cancel prefix colon s t e =
    append_cancel_left colon s t (append_cancel_left prefix (colon ++ s) (colon ++ t) e)

-- What stands before a colon makes a text longer.
pub sprintf_longer : (prefix s : String) → sprintf (prefix ∷ ":" ∷ s ∷ []) ≢ s
sprintf_longer prefix s e = cons≢nil (
    ((append-eq-nil_iff {p = prefix} {q = ":"}).0 (
      append_cancel_right (prefix ++ ":") "" s
        (append_assoc prefix ":" s ∙ e ∙ sym (nil-append s)))).1)
