-- ===== src/Parser/Samples.antt =====
-- A JSON serializer for the runs of the parser: it reads an array of one literal without escapes.
use socket_io.Base.{
  ◌-◌, Option, none, some, List, [], ◌∷◌, Bytes, length, take, drop, ltb, if◌then◌else◌,
}

abbrev pub quoted : Bytes → Option (List Bytes)
quoted s = if ltb (length s) 4 then none else some (take (length s - 4) (drop 2 s) ∷ [])
