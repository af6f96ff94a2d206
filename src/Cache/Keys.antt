-- ===== src/Cache/Keys.antt =====
-- The key of a cache entry (src/cpp_mcp/core/tu_cache.py, `_CacheKey` and `_make_key`).
use cpp_mcp.Base.{
  Text, List, [], Option, none, some, Bool, true, ◌&&◌, ◌≡◌, ◌↔◌, Eq, ◌≟◌, list_beq_iff, arith,
  list_eq, nat_eq,
}

pub record CacheKey : Type 0 where
  pub file_realpath : Text
  pub build_realpath : Text
  pub flags_sha1 : Text

abbrev pub key_beq : CacheKey → CacheKey → Bool
key_beq a b =
    (a.file_realpath ≟ b.file_realpath)
    && (a.build_realpath ≟ b.build_realpath)
    && (a.flags_sha1 ≟ b.flags_sha1)

pub key_beq_iff : (a b : CacheKey) → (key_beq a b ≡ true) ↔ (a ≡ b)
key_beq_iff a b = ground (
  arith,
  list_beq_iff a.file_realpath b.file_realpath,
  list_beq_iff a.build_realpath b.build_realpath,
  list_beq_iff a.flags_sha1 b.flags_sha1,
)

instance abbrev pub key_eq : Eq CacheKey
key_eq = record { beq = key_beq; beq_iff = key_beq_iff }

-- What the host computes: `os.path.realpath`, which reads the file system, and
-- `hashlib.sha1(repr(flags).encode()).hexdigest()`.
pub record Host : Type 0 where
  pub realpath : Text → Text
  pub flags_sha1 : List Text → Text

unfoldable pub make_key : Host → Text → Option Text → List Text → CacheKey
make_key host file_path build_path flags = record {
  file_realpath = host.realpath file_path;
  build_realpath = elim build_path [ none ↦ [] | some b ↦ host.realpath b ];
  flags_sha1 = host.flags_sha1 flags;
}
