-- ===== src/Mp4box/Track/Moov.antt =====
-- moov around its tracks, and the lengths that the writers keep of them.
use inc.Prelude.{ℕ, ◌+◌, ◌-◌, ◌^◌, ◌<◌, ◌≡◌, List, ◌++◌, arith, length, length-append}
use inc.Mp4box.Boxes.{moov_bytes}
use inc.Mp4box.Track.{Trak, marshal, table_of}
use inc.Mp4box.Track.Layout.{IsBox, marshal-IsBox, sized}

-- The description and the table of a track leave room for the headers below 2 ^ 31 bytes.
abbrev pub IsSmall : Trak → Type 0
IsSmall t = length t.stsdv + length (table_of t) + 400 < 2 ^ 31

pub marshal_size : (t : Trak) → IsSmall t → (marshal t).1.0 < 2 ^ 31 - 116
unfolding marshal
marshal_size t h = omega arith

-- The length of a box that the code keeps is the box's.
pub track_length : (t : Trak) → IsSmall t → (marshal t).1.0 ≡ length (marshal t).0.stsdv
track_length t h = (marshal-IsBox t (omega arith)).1

pub moov-IsBox :
    (now duration len1 len2 : ℕ) (a b : List ℕ)
    → len1 ≡ length a
    → len2 ≡ length b
    → len1 < 2 ^ 31
    → len2 < 2 ^ 31 - 116
    → IsBox (moov_bytes now duration len1 len2 ++ (a ++ b))
unfolding moov_bytes
moov-IsBox now duration len1 len2 a b e h small1 small2 =
    sized (116 + len1 + len2) _ (omega arith) (omega (arith, length-append a b))
