-- ===== src/Fmp4/Tests.antt =====
-- The film written in fragments, and two key frames of the time 0.
use inc.Prelude.{ℕ, ◌≡◌, refl, List, [], ◌∷◌, true, Option, none, some, arith, All}
use inc.Nalu.{split, scan, at_start, sort, sort_loop, sort_step, is_h264}
use inc.Byte.{store_all, store}
use inc.Sps.Choice.{unit_decode_sps}
use inc.Sps.Hevc
use inc.Mp4box.{htobe32, le32type}
use inc.Mp4box.Boxes.{
  ftyp_bytes, trak_marshal, trak_bytes, tkhd_bytes, mdhd_bytes, hdlr_bytes, vmhd_bytes, dinf_bytes,
  moov_bytes,
}
use inc.Mp4box.Tables.{stts_marshal, stsc_marshal, stsz_marshal, stco_marshal, stss_marshal}
use inc.Mp4box.Entries.{stsdv_marshal, stsda_bytes, mp4a_bytes, esds_bytes}
use inc.Mp4box.Config.{hvcc_marshal, hvcc_unit, copy, emit}
use inc.Mp4box.Track.{make_video, configuration, marshal, make_audio, table_of}
use inc.Output.{frame_data, fwrite, bytes_at, box_at, Frame}
use inc.Output.Film.{key_block, film}
use inc.Output.{Frame}
use inc.Mp4box.Track.{Trak, make_trak}
use inc.Mp4box.Track.Layout.{IsBox, join}
use inc.Output.Stream.{at_end}
use inc.Fmp4.{
  Fmp4, Movie, new_fmp4, open_file, close, write_frame, write_on, begin_file, write_ftyp_moov,
  add_frame, set_frame, moof_marshal, mvex_bytes,
}
use inc.Fmp4.Running.{write_frames, opened}
use inc.Fmp4.Starting.{first_units}
use inc.Fmp4.Closing.{closed-film}
use inc.Fmp4.Closing
use inc.Fmp4.ZeroTime.{heads, write_frames-heads}

taken : List Frame → Option Fmp4
unfolding open_file write_frame write_on begin_file write_ftyp_moov add_frame set_frame moof_marshal
    mvex_bytes frame_data split scan at_start sort sort_loop sort_step is_h264 unit_decode_sps
    Hevc.decode_sps make_video configuration hvcc_marshal hvcc_unit copy emit store_all store fwrite
    bytes_at box_at marshal make_audio table_of stts_marshal stsc_marshal stsz_marshal stco_marshal
    stss_marshal stsda_bytes mp4a_bytes esds_bytes trak_marshal trak_bytes tkhd_bytes mdhd_bytes
    hdlr_bytes vmhd_bytes dinf_bytes moov_bytes stsdv_marshal ftyp_bytes htobe32 le32type
taken xs = write_frames 1000 xs (open_file true new_fmp4).0

fmp4_or_new : Option Fmp4 → Fmp4
fmp4_or_new none = new_fmp4
fmp4_or_new (some m) = m

film_fmp4 : Fmp4
unfolding taken fmp4_or_new
film_fmp4 = fmp4_or_new (taken film)

film_lem : write_frames 1000 film (open_file true new_fmp4).0 ≡ some film_fmp4
unfolding film_fmp4
film_lem = refl

content_or_empty : Option (List ℕ) → List ℕ
content_or_empty none = []
content_or_empty (some content) = content

film_end : Fmp4 × List ℕ
unfolding film_fmp4 close content_or_empty
film_end = ((close film_fmp4).0, content_or_empty (close film_fmp4).1)

end_lem : close film_fmp4 ≡ (film_end.0, some film_end.1)
unfolding film_end
end_lem = refl

closed-film_example :
    (t : Trak) × (make_video make_trak (first_units film) ≡ some t)
    × (film_end.1 ≡ join (Closing.film 1000 film t))
    × All IsBox (Closing.film 1000 film t)
closed-film_example =
    closed-film 1000 film refl (omega arith, (omega arith, (omega arith, tt))) refl film_lem end_lem

abbrev two_keys : List Frame
two_keys =
    record { ts = 0; ftype = 1; block = key_block; len = 26 }
    ∷ record { ts = 0; ftype = 1; block = key_block; len = 26 }
    ∷ []

keys_fmp4 : Fmp4
unfolding taken fmp4_or_new
keys_fmp4 = fmp4_or_new (taken two_keys)

keys_lem : write_frames 1000 two_keys (open_file true new_fmp4).0 ≡ some keys_fmp4
unfolding keys_fmp4
keys_lem = refl

write_frames-heads_example :
    (w : Movie) × (keys_fmp4 ≡ opened (at_end (heads 1000 two_keys)) w) × (w.seq ≡ 0)
write_frames-heads_example = write_frames-heads 1000 two_keys (refl, (refl, tt)) keys_lem
