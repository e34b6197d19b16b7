-- ===== src/Mp4/Listing.antt =====
-- The tables of sizes and places, found in the bytes of the closed file.
use inc.Prelude.{ℕ, ◌+◌, ◌≡◌, List, [], ◌++◌, ◌==◌, if◌then◌else◌, true, false, length}
use inc.Mp4box.Boxes.{TrakBox, trak_marshal, trak_bytes, words}
use inc.Prelude.Word.{u32}
use inc.Mp4box.{htobe32}
use inc.Mp4box.Tables.{
  stts_bytes, stts_marshal, stsc_bytes, stsc_marshal, stsz_bytes, stsz_marshal, table_bytes,
  stco_marshal, stss_marshal,
}
use inc.Mp4box.Track.{Trak, table_of, rdur}
use inc.Output.{Frame}
use inc.Mp4.{Mp4}
use inc.Mp4.Reading.{pieces, side_payloads}

-- A trak box with its table of sizes and, behind it, its table of places. `between` are the description
-- and the tables in front of them.
pub record Listed : Type 0 where
  pub box : TrakBox
  pub id : ℕ
  pub size : ℕ
  pub between : List ℕ
  pub sizes : List ℕ
  pub offsets : List ℕ
  pub after : List ℕ

abbrev pub trak_of : Listed → List ℕ
trak_of l =
    trak_bytes l.box l.id l.size
    ++ (l.between
        ++ (stsz_bytes (stsz_marshal (length l.sizes))
            ++ (words l.sizes
                ++ (table_bytes (stco_marshal (length l.sizes)) ++ (words l.offsets ++ l.after)))))

-- The file ends with two trak boxes, and the tables that stand in the first give the video frames out
-- of the file, those in the second the audio frames.
pub record Listing (xs : List Frame) (content : List ℕ) : Type 0 where
  pub before : List ℕ
  pub video : Listed
  pub audio : Listed
  pub whole : content ≡ before ++ (trak_of video ++ trak_of audio)
  pub video_pieces : pieces content video.offsets video.sizes ≡ side_payloads true xs
  pub audio_pieces : pieces content audio.offsets audio.sizes ≡ side_payloads false xs

abbrev listed : Trak → Listed
listed t = record {
  box =
      trak_marshal
        (record (t.box) { duration = htobe32 (rdur t); media_duration = htobe32 (rdur t) });
  id = t.id;
  size = u32 (length (t.stsdv) + length (table_of t));
  between =
      t.stsdv
      ++ (stts_bytes (stts_marshal (t.stts) (length (t.sizes)) (rdur t))
          ++ stsc_bytes stsc_marshal);
  sizes = t.sizes;
  offsets = t.offsets;
  after = if t.id == 1 then table_bytes (stss_marshal (length (t.keys))) ++ words (t.keys) else [];
}
