-- ===== src/Frames/Tests.antt =====
-- A file of two frames and a beginning, read, and the theorem at it.
use inc.Frames.First.{Plain, read_slice}
use inc.Prelude.{zero, suc, arith, take, drop, ℕ, ◌≡◌, refl, List, [], ◌∷◌, ◌++◌, true, false, some}
use inc.Text.{is_prefix}
use inc.Frames.{File, open_file, read, read_264_frame, start_code, read_buf_siz}
use inc.Frames.Reading.{read_all, IsWhole, read_all-IsWhole}

abbrev slice : List ℕ
slice = start_code ++ (0x65 ∷ 9 ∷ [])

abbrev sets : List ℕ
sets = start_code ++ (0x67 ∷ 8 ∷ [])

-- The parameter set goes with the slice behind it.
cuts : read_264_frame (sets ++ (slice ++ (slice ++ []))) 13 ≡ some 12
unfolding read_264_frame inc.Frames.scan is_prefix
cuts = refl

abbrev video : File
video = record { opened = true; content = sets ++ (slice ++ slice); pos = 0 }

opens :
    open_file (some (sets ++ (slice ++ slice))) (record { opened = false; content = []; pos = 3 })
    ≡ (video, true)
unfolding open_file
opens = refl

read_all-IsWhole_example : IsWhole 2 video (read_all 2 video)
read_all-IsWhole_example = read_all-IsWhole 2 video

abbrev two_slices : File
two_slices = record { opened = true; content = slice ++ (slice ++ (0 ∷ 0 ∷ [])); pos = 0 }

plain : Plain 5 (drop 1 (take read_buf_siz two_slices.content))
unfolding is_prefix
plain zero h = refl
plain (suc zero) h = refl
plain (suc (suc zero)) h = refl
plain (suc (suc (suc zero))) h = refl
plain (suc (suc (suc (suc zero)))) h = refl
plain (suc (suc (suc (suc (suc i))))) h = absurd (omega arith)

read_slice_example :
    read two_slices ≡ (some (take 6 two_slices.content, 1), record two_slices { pos = 6 })
unfolding is_prefix
read_slice_example = read_slice 5 two_slices refl refl refl plain refl (omega arith)
