-- ===== src/Mp4/Tests.antt =====
-- A film of a key frame, an audio frame and another frame, written and closed.
use inc.Prelude.{ℕ, ◌+◌, ◌≡◌, refl, List, [], ◌∷◌, true, Option, none, some, arith, length}
use inc.Nalu.{split, scan, at_start, sort, sort_loop, sort_step, is_h264}
use inc.Byte.{store_all, store}
use inc.Sps.Choice.{unit_decode_sps}
use inc.Sps.Hevc
use inc.Mp4box.{htobe32, le32type}
use inc.Mp4box.Boxes.{
  ftyp_bytes, trak_marshal, trak_bytes, tkhd_bytes, mdhd_bytes, hdlr_bytes, vmhd_bytes, dinf_bytes,
  moov_bytes,
}
use inc.Mp4box.Tables.{stts_marshal, stsc_marshal, stsz_marshal, stco_marshal, stss_marshal}
use inc.Mp4box.Entries.{stsdv_marshal, stsda_bytes, mp4a_bytes, esds_bytes}
use inc.Mp4box.Config.{hvcc_marshal, hvcc_unit, copy, emit}
use inc.Mp4box.Track.{make_video, configuration, append_sample, marshal, make_audio, table_of}
use inc.Output.{frame_data, fwrite, bytes_at, box_at, payloads, from_key}
use inc.Output.Film.{film}
use inc.Mp4.{
  Mp4, new_mp4, open_file, close, write_frame, write_on, begin_file, write_ftyp, add_frame,
  add_audio, add_video, write_moov,
}
use inc.Mp4.Recording.{write_frames}
use inc.Mp4.Reading.{side_payloads}
use inc.Mp4.Listing.{Listing}
use inc.Mp4.Boxes.{IsFile, closed-IsFile}

filmed : Option Mp4
unfolding open_file write_frame write_on begin_file write_ftyp add_frame add_audio add_video
    frame_data split scan at_start sort sort_loop sort_step is_h264 unit_decode_sps Hevc.decode_sps
    make_video configuration hvcc_marshal hvcc_unit copy emit store_all store append_sample fwrite
    bytes_at stsdv_marshal ftyp_bytes htobe32 le32type
filmed = write_frames film (open_file true new_mp4).0

mp4_or_new : Option Mp4 → Mp4
mp4_or_new none = new_mp4
mp4_or_new (some m) = m

film_mp4 : Mp4
unfolding filmed mp4_or_new
film_mp4 = mp4_or_new filmed

film_lem : write_frames film (open_file true new_mp4).0 ≡ some film_mp4
unfolding film_mp4
film_lem = refl

ended : Option (Mp4 × Option (List ℕ))
unfolding film_mp4 close write_moov marshal make_audio box_at bytes_at fwrite table_of stts_marshal
    stsc_marshal stsz_marshal stco_marshal stss_marshal stsda_bytes mp4a_bytes esds_bytes
    trak_marshal trak_bytes tkhd_bytes mdhd_bytes hdlr_bytes vmhd_bytes dinf_bytes moov_bytes
    htobe32 le32type
ended = close 1000 film_mp4

ended_or_new : Option (Mp4 × Option (List ℕ)) → Mp4 × List ℕ
ended_or_new (some (m, some content)) = (m, content)
ended_or_new _ = (new_mp4, [])

film_end : Mp4 × List ℕ
unfolding ended ended_or_new
film_end = ended_or_new ended

end_lem : close 1000 film_mp4 ≡ some (film_end.0, some film_end.1)
unfolding film_end
end_lem = refl

film_size : length (payloads (from_key film)) ≡ 15
unfolding filmed
film_size = refl

-- The two frames of the video track, each behind its length.
film_video :
    side_payloads true (from_key film)
    ≡ (0 ∷ 0 ∷ 0 ∷ 3 ∷ 38 ∷ 1 ∷ 9 ∷ []) ∷ (0 ∷ 0 ∷ 0 ∷ 2 ∷ 2 ∷ 1 ∷ []) ∷ []
unfolding filmed
film_video = refl

film_tables :
    (length film_mp4.movie.trakv.stsdv + length (table_of film_mp4.movie.trakv) ≡ 279)
    × (length (make_audio film_mp4.movie.traka).stsdv
          + length (table_of (make_audio film_mp4.movie.traka))
        ≡ 187)
unfolding ended
film_tables = (refl, refl)

closed-IsFile_example : IsFile 1000 (from_key film) film_end.1 film_mp4.movie
closed-IsFile_example =
    closed-IsFile film 1000 refl film_lem end_lem (omega (arith, film_size))
      (omega (arith, film_tables.0)) (omega (arith, film_tables.1))
