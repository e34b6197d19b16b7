-- ===== src/Mp4box/Tables.antt =====
-- stream/mp4box.hpp: the boxes of a sample table. `u32` members are words of the host.
use inc.Prelude.{ℕ, ◌+◌, ◌*◌, ◌/◌, List, [], ◌∷◌, ◌++◌, ltb, if◌then◌else◌}
use inc.Prelude.Word.{u32}
use inc.Mp4box.{htobe32, le32type, le32}

-- `sizeof`, in bytes.
abbrev pub sizeof_stts : ℕ
sizeof_stts = 24

abbrev pub sizeof_stss : ℕ
sizeof_stss = 16

abbrev pub sizeof_stsc : ℕ
sizeof_stsc = 28

abbrev pub sizeof_stsz : ℕ
sizeof_stsz = 20

abbrev pub sizeof_stco : ℕ
sizeof_stco = 16

-- The version and the flags, which no code assigns.
abbrev no_flags : List ℕ
no_flags = 0 ∷ 0 ∷ 0 ∷ 0 ∷ []

pub record Stts : Type 0 where
  pub size : ℕ
  pub type : ℕ
  pub count : ℕ
  pub sample_counts : ℕ
  pub sample_deltas : ℕ

abbrev pub stts_bytes : Stts → List ℕ
stts_bytes b =
    le32 (b.size)
    ++ le32 (b.type)
    ++ no_flags
    ++ le32 (b.count)
    ++ le32 (b.sample_counts)
    ++ le32 (b.sample_deltas)

unfoldable pub stts_marshal : Stts → ℕ → ℕ → Stts
stts_marshal b num dur = record {
  size = htobe32 sizeof_stts;
  type = le32type 115 116 116 115;
  count = htobe32 1;
  sample_counts = htobe32 num;
  sample_deltas = if ltb 0 num then htobe32 (dur / num) else b.sample_deltas;
}

-- `stss`, `stsz` without its common size, and `stco`: a size, a type and a count.
pub record Table : Type 0 where
  pub size : ℕ
  pub type : ℕ
  pub count : ℕ

abbrev pub table_bytes : Table → List ℕ
table_bytes b = le32 (b.size) ++ le32 (b.type) ++ no_flags ++ le32 (b.count)

unfoldable pub stss_marshal : ℕ → Table
stss_marshal num = record {
  size = htobe32 (u32 (sizeof_stss + num * 4));
  type = le32type 115 116 115 115;
  count = htobe32 num;
}

unfoldable pub stco_marshal : ℕ → Table
stco_marshal num = record {
  size = htobe32 (u32 (sizeof_stco + num * 4));
  type = le32type 115 116 99 111;
  count = htobe32 num;
}

unfoldable pub stsz_marshal : ℕ → Table
stsz_marshal num = record {
  size = htobe32 (u32 (sizeof_stsz + num * 4));
  type = le32type 115 116 115 122;
  count = htobe32 num;
}

-- `sample_size` stays 0: every sample has its own.
abbrev pub stsz_bytes : Table → List ℕ
stsz_bytes b = le32 (b.size) ++ le32 (b.type) ++ no_flags ++ le32 0 ++ le32 (b.count)

pub record Stsc : Type 0 where
  pub size : ℕ
  pub type : ℕ
  pub count : ℕ
  pub first_chunk : ℕ
  pub samp_per_chunk : ℕ
  pub samp_desc_id : ℕ

abbrev pub stsc_bytes : Stsc → List ℕ
stsc_bytes b =
    le32 (b.size)
    ++ le32 (b.type)
    ++ no_flags
    ++ le32 (b.count)
    ++ le32 (b.first_chunk)
    ++ le32 (b.samp_per_chunk)
    ++ le32 (b.samp_desc_id)

unfoldable pub stsc_marshal : Stsc
stsc_marshal = record {
  size = htobe32 sizeof_stsc;
  type = le32type 115 116 115 99;
  count = htobe32 1;
  first_chunk = htobe32 1;
  samp_per_chunk = htobe32 1;
  samp_desc_id = htobe32 1;
}
