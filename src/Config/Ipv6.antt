-- ===== src/Config/Ipv6.antt =====
-- internal/config/config.go: `serializeIPv6`.
use hoocloak.Base.{
  ◌≡◌, refl, ℕ, zero, suc, ◌+◌, ◌-◌, ◌*◌, List, [], ◌∷◌, ◌++◌, Bool, false, Option, none, some, ltb,
  if◌then◌else◌,
}
use hoocloak.Config.Text.{codes, is_code, Text, format}

-- Where a run of zero pieces starts, `none` for the index -1, and its length.
pub record Run : Type 0 where
  pub index : Option ℕ
  pub length : ℕ

abbrev pub no_run : Run
no_run = record { index = none; length = 0 }

-- `if currentLength > bestLength { best = current }`.
unfoldable pub longer : Run → Run → Run
longer best current = if ltb best.length current.length then current else best

-- The index of a run that starts at `index` unless one has started.
abbrev pub or_here : Option ℕ → ℕ → Option ℕ
or_here none index = some index
or_here (some start) index = some start

-- The loop that looks for the longest run, and the test after it.
unfoldable pub best_run : ℕ → List ℕ → Run → Run → Run
unfolding longer
best_run index [] best current = longer best current
best_run index (piece ∷ rest) best current =
    if is_code piece 0
    then best_run (suc index) rest best
        (record { index = or_here current.index index; length = suc current.length })
    else best_run (suc index) rest (longer best current) no_run

abbrev pub starts_at : Option ℕ → ℕ → Bool
starts_at none index = false
starts_at (some start) index = is_code start index

-- The loop that writes; `skip` pieces of the run are still to pass over.
unfoldable pub write_pieces : ℕ → ℕ → Run → List ℕ → Text
write_pieces index skip run [] = []
write_pieces index (suc skip) run (piece ∷ rest) = write_pieces (suc index) skip run rest
write_pieces index zero run (piece ∷ rest) =
    if starts_at run.index index
    then (if is_code index 0 then b':' ∷ b':' ∷ [] else b':' ∷ [])
      ++ write_pieces (suc index) (run.length - 1) run rest
    else format 16 piece
      ++ (if is_code index 7 then [] else b':' ∷ [])
      ++ write_pieces (suc index) 0 run rest

-- The pieces of the 16 bytes.
unfoldable pub pieces : List ℕ → List ℕ
pieces (high ∷ low ∷ rest) = (high * 256 + low) ∷ pieces rest
pieces _ = []

unfoldable pub serialize_ipv6 : List ℕ → Text
unfolding best_run write_pieces pieces
serialize_ipv6 bytes =
    let words = pieces bytes in
    write_pieces 0 0 (best_run 0 words (record { index = none; length = 1 }) no_run) words

loopback :
    serialize_ipv6 (0 ∷ 0 ∷ 0 ∷ 0 ∷ 0 ∷ 0 ∷ 0 ∷ 0 ∷ 0 ∷ 0 ∷ 0 ∷ 0 ∷ 0 ∷ 0 ∷ 0 ∷ 1 ∷ [])
    ≡ codes "::1"
unfolding serialize_ipv6 format
loopback = refl

documentation :
    serialize_ipv6 (32 ∷ 1 ∷ 13 ∷ 184 ∷ 0 ∷ 0 ∷ 0 ∷ 0 ∷ 0 ∷ 0 ∷ 0 ∷ 0 ∷ 0 ∷ 0 ∷ 0 ∷ 0 ∷ [])
    ≡ codes "2001:db8::"
unfolding serialize_ipv6 format
documentation = refl
