-- ===== src/Restore/Examples.antt =====
-- A file of three bytes, backed up with the scheme 2/1; one of its shards is lost.
use cerclbackup.Prelude.{
  ℕ, ◌/◌, ◌%◌, ◌≡◌, refl, ap, ◌≢◌, inl, inr, true, false, Option, none, some, List, [], ◌∷◌, arith,
  nat_eq, list_beq, list_eq, Bytes, Text, text, length, drop, replicate, lookup, insert, erase,
  Result, ok,
}
use cerclbackup.Io.{short_read, read_full, write}
use cerclbackup.Chunker.{make_chunk, chunk_loop, chunk_reader, chunk_file}
use cerclbackup.Protocol.{total_shards, ManifestEntry}
use cerclbackup.Codec.{
  slices, wrap, encode, padded, split_chunk_to_shards, concat, merge_shard_to_chunk,
}
use cerclbackup.Codec.Coder.{Damaged}
use cerclbackup.Codec.SumCode.{
  scheme, sum_encode, sum_reconstruct, sum_code, sum_code-IsReedSolomon,
}
use cerclbackup.Compress.{Zstd, put_uint32_le, uint32_le, compress, decode_frame, decompress}
use cerclbackup.Crypto.{
  Primitives, derive_sub_key, derive_file_key, derive_shard_key, new_cipher, encrypt, decrypt,
  encrypt_shard, decrypt_shard,
}
use cerclbackup.Storage.{
  from_disk, update_meta, put_meta, own_shard_path, meta_path, read_meta, write_meta, known_meta,
  store_put, store_get,
}
use cerclbackup.BuddyStore.{shard_name}
use cerclbackup.Files.{
  split_slash, enter, enter_all, join, is_below, Tree, read_file, above_is_file, has_below,
  write_file,
}
use cerclbackup.Files.Decimal.{pos, digits, itoa}
use cerclbackup.Hex.{hex_digit, to_hex, hex_value, joined_digits, from_hex}
use cerclbackup.Manifest.{Entries, values, next_version, new_entry, upsert}
use cerclbackup.Backup.{
  Tools, BackupError, hashes_of, file_hash_from_chunks, file_id_from_hash, location, new_encoder,
  store_shards, coded_chunk, store_chunks, Source, store_file, chunked, upload, enter_file,
  backup_one_file,
}
use cerclbackup.Restore.{
  Request, chosen_entry, hex_to_hash, from_buddies, obtained, raw_shard, raw_shards, unpacked,
  chunk_data, restore_loop, checked, restore_entry, restore,
}
use cerclbackup.Restore.Groups.{alone, EnoughLeft}
use cerclbackup.Restore.Recovery.{IsFaithful, IsCoder}
use cerclbackup.Restore.RoundTrip.{restore-backup_one_file}
use cerclbackup.Restore.Integrity.{all_of, all_hashes, restore_sound}

abbrev digest_of : Bytes → Bytes
digest_of b = (length b % 256) ∷ replicate 31 7

abbrev toy_zstd : Zstd
toy_zstd = record {
  encode_all = λ b. b;
  decode_all = λ b. some b;
  encoder_starts = true;
  decoder_starts = true;
}

abbrev toy_crypto : Primitives
toy_crypto = record {
  expand = λ secret salt info. some (replicate 32 1);
  seal = λ key nonce plaintext. 9 ∷ plaintext;
  unseal = λ key nonce blob. some (drop 1 blob);
}

abbrev tools : Tools
tools = record {
  sha256 = digest_of;
  zstd = toy_zstd;
  crypto = toy_crypto;
  new_coder = λ s. some sum_code;
  root = text "store" ∷ [];
  marshal = λ meta. some [];
  unmarshal = λ blob. some [];
}

abbrev nonces : ℕ → Option Bytes
nonces i = some (replicate 12 0)

toy-IsFaithful : IsFaithful tools nonces
toy-IsFaithful = record {
  zstd_laws = record { starts = (refl, refl); decodes = λ b. refl };
  aead_laws = record {
    opens = λ key nonce plaintext. refl;
    expands = λ secret salt info. (replicate 32 1, refl, refl);
  };
  digest = λ b. (refl, omega arith);
  frames = λ b h. omega arith;
  random = λ i. (replicate 12 0, refl, refl);
}

toy-IsCoder : IsCoder tools scheme sum_code
toy-IsCoder = record { made = refl; code_laws = sum_code-IsReedSolomon; some_data = omega arith }

abbrev content : Bytes
content = 1 ∷ 2 ∷ 3 ∷ []

abbrev src : Source
src = record {
  path = text "a";
  opened = some (record { content = content; fails = false });
  size = 3;
  stat = some 4;
  uuid = text "u";
  now = 5;
}

abbrev empty_tree : Tree
empty_tree = record { files = []; fault = λ p. false }

abbrev after : Result BackupError ManifestEntry × Tree × Entries
after = backup_one_file tools nonces [] scheme src empty_tree []

abbrev entry : ManifestEntry
entry = record {
  file_id = text "u";
  path = text "a";
  hash = to_hex (digest_of (digest_of content));
  size = 3;
  modified = 4;
  scheme = scheme;
  shards = location 0 false 0 0 ∷ location 1 false 0 1 ∷ location 2 true 0 2 ∷ [];
  version = 1;
  backed_at = 5;
  compressed = true;
}

-- The disk from then on, without the file of the first shard.
abbrev id : Text
id = file_id_from_hash (digest_of (digest_of content))

abbrev kept_tree : Tree
kept_tree = after.1

abbrev lossy_tree : Tree
lossy_tree = record {
  files =
      erase (own_shard_path tools.root tools.marshal tools.unmarshal id (pos 0)) kept_tree.files;
  fault = λ p. false;
}

abbrev request : Request
request = record { file_id = text "u"; file_path = []; version = 0 }

abbrev one : Bytes
one = 7 ∷ 0 ∷ 0 ∷ []

backed_up : after ≡ (ok entry, kept_tree, (text "u", entry) ∷ [])
unfolding backup_one_file chunked chunk_file chunk_reader chunk_loop make_chunk read_full short_read
    store_file derive_file_key derive_sub_key new_encoder store_chunks coded_chunk compress
    put_uint32_le split_chunk_to_shards padded slices encode wrap sum_encode store_shards
    encrypt_shard derive_shard_key encrypt new_cipher store_put own_shard_path known_meta read_meta
    write_meta put_meta from_disk meta_path update_meta join enter_all enter split_slash shard_name
    itoa digits write_file above_is_file has_below is_below read_file insert lookup list_beq
    file_id_from_hash file_hash_from_chunks hashes_of to_hex hex_digit enter_file upload upsert
    new_entry next_version values
backed_up = refl

kept_shards :
    raw_shards tools alone (replicate 32 1) id kept_tree entry.shards
    ≡ (3 ∷ 0 ∷ 0 ∷ 0 ∷ []) ∷ (1 ∷ 2 ∷ 3 ∷ 0 ∷ []) ∷ (4 ∷ 2 ∷ 3 ∷ 0 ∷ []) ∷ []
unfolding backup_one_file chunked chunk_file chunk_reader chunk_loop make_chunk read_full short_read
    store_file derive_file_key derive_sub_key new_encoder store_chunks coded_chunk compress
    put_uint32_le split_chunk_to_shards padded slices encode wrap sum_encode store_shards
    encrypt_shard derive_shard_key encrypt new_cipher store_put own_shard_path known_meta read_meta
    write_meta put_meta from_disk meta_path update_meta join enter_all enter split_slash shard_name
    itoa digits write_file above_is_file has_below is_below read_file insert lookup list_beq
    file_id_from_hash file_hash_from_chunks hashes_of to_hex hex_digit enter_file upload upsert
    new_entry next_version values raw_shards raw_shard obtained from_buddies store_get decrypt_shard
    decrypt hex_to_hash from_hex hex_value joined_digits chosen_entry erase
kept_shards = refl

left_shards :
    raw_shards tools alone (replicate 32 1) id lossy_tree entry.shards
    ≡ [] ∷ (1 ∷ 2 ∷ 3 ∷ 0 ∷ []) ∷ (4 ∷ 2 ∷ 3 ∷ 0 ∷ []) ∷ []
unfolding backup_one_file chunked chunk_file chunk_reader chunk_loop make_chunk read_full short_read
    store_file derive_file_key derive_sub_key new_encoder store_chunks coded_chunk compress
    put_uint32_le split_chunk_to_shards padded slices encode wrap sum_encode store_shards
    encrypt_shard derive_shard_key encrypt new_cipher store_put own_shard_path known_meta read_meta
    write_meta put_meta from_disk meta_path update_meta join enter_all enter split_slash shard_name
    itoa digits write_file above_is_file has_below is_below read_file insert lookup list_beq
    file_id_from_hash file_hash_from_chunks hashes_of to_hex hex_digit enter_file upload upsert
    new_entry next_version values raw_shards raw_shard obtained from_buddies store_get decrypt_shard
    decrypt hex_to_hash from_hex hex_value joined_digits chosen_entry erase
left_shards = refl

hash_read : hex_to_hash entry.hash ≡ some (digest_of (digest_of content))
unfolding hex_to_hash from_hex hex_value joined_digits to_hex hex_digit
hash_read = refl

key_derived : derive_file_key tools.crypto [] (digest_of (digest_of content)) ≡ ok (replicate 32 1)
unfolding derive_file_key derive_sub_key
key_derived = refl

entry_chosen : chosen_entry request ((text "u", entry) ∷ []) ≡ some entry
unfolding chosen_entry lookup list_beq
entry_chosen = refl

damaged :
    Damaged
      (raw_shards tools alone (replicate 32 1) id kept_tree entry.shards)
      (raw_shards tools alone (replicate 32 1) id lossy_tree entry.shards)
damaged = rw (kept_shards, left_shards) (inr refl, (inl refl, (inl refl, tt)))

enough :
    EnoughLeft scheme
      (length entry.shards / total_shards scheme)
      (raw_shards tools alone (replicate 32 1) id lossy_tree entry.shards)
unfolding total_shards
enough = rw left_shards (omega arith, tt)

restore-backup_one_file_example :
    restore tools alone []
      (some (record { written = []; room = none }))
      lossy_tree
      ((text "u", entry) ∷ [])
      request
    ≡ (ok entry, some content)
restore-backup_one_file_example =
    restore-backup_one_file tools nonces [] (digest_of (digest_of content)) (replicate 32 1) content
      scheme sum_code src empty_tree kept_tree lossy_tree [] ((text "u", entry) ∷ [])
      ((text "u", entry) ∷ []) entry alone request toy-IsFaithful toy-IsCoder refl backed_up
      hash_read key_derived damaged enough entry_chosen

some_hash : entry.hash ≢ []
unfolding to_hex
some_hash e = absurd (omega (arith, ap length e))

-- Without the network, and from a complete store.
restored :
    restore tools alone []
      (some (record { written = []; room = none }))
      kept_tree
      ((text "u", entry) ∷ [])
      request
    ≡ (ok entry, some content)
unfolding backup_one_file chunked chunk_file chunk_reader chunk_loop make_chunk read_full short_read
    store_file derive_file_key derive_sub_key new_encoder store_chunks coded_chunk compress
    put_uint32_le split_chunk_to_shards padded slices encode wrap sum_encode store_shards
    encrypt_shard derive_shard_key encrypt new_cipher store_put own_shard_path known_meta read_meta
    write_meta put_meta from_disk meta_path update_meta join enter_all enter split_slash shard_name
    itoa digits write_file above_is_file has_below is_below read_file insert lookup list_beq
    file_id_from_hash file_hash_from_chunks hashes_of to_hex hex_digit enter_file upload upsert
    new_entry next_version values raw_shards raw_shard obtained from_buddies store_get decrypt_shard
    decrypt hex_to_hash from_hex hex_value joined_digits chosen_entry erase restore restore_entry
    restore_loop chunk_data merge_shard_to_chunk concat unpacked decompress uint32_le decode_frame
    write checked sum_reconstruct total_shards
restored = refl

restore_sound_example :
    (chosen_entry request ((text "u", entry) ∷ []) ≡ some entry)
    × ((pieces : List Bytes) × (length pieces ≡ length entry.shards / total_shards entry.scheme)
        × (length entry.shards % total_shards entry.scheme ≡ 0)
        × (some content ≡ some (all_of pieces))
        × (to_hex (tools.sha256 (all_hashes tools.sha256 pieces)) ≡ entry.hash))
restore_sound_example =
    restore_sound tools alone [] kept_tree ((text "u", entry) ∷ []) request entry (some content)
      some_hash restored
