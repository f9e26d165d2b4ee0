-- ===== src/State/Identities.antt =====
-- internal/state/state.go: what a saved identity means for later loads.
use forgery.Base.{
  Str, Bool, true, false, ◌≡◌, refl, arith, ◌==◌, nat_eq, str_eq, eq_iff, Option, none, some, [],
  lookup, lookup-insert, inl, inr, Option-cases, Bool-cases, if◌then◌else◌,
}
use forgery.State.{
  Identity, FileFormat, Json, Disk, contents, missing, unreadable, ReadResult, read_error, no_file,
  file_read, read_parsed, format_version, loaded, stored, read, load_from, load, merged,
  save_merged, save,
}

-- JSON gives back the file that Save writes, wherever it encodes it.
abbrev pub RoundTrips : Json → Option FileFormat → Type 0
RoundTrips json none = Unit
RoundTrips json (some f) =
    (bytes : Str) → json.marshal f ≡ some bytes → json.unmarshal bytes ≡ some f

module _ (json : Json) (writes : Bool) (url key : Str) (id : Identity) where
  -- what Save leaves, from what it read
  abbrev Saved : ReadResult → Disk → Bool × Disk → Type 0
  Saved r disk (ok, after) =
      (ok ≡ true
        → load json key after ≡ (if url == key then loaded (some id) else load_from json key r))
      × (ok ≡ false → after ≡ disk)

  save_file :
      (f : FileFormat) (r : ReadResult) (disk : Disk)
      → f.version ≡ format_version
      → loaded (lookup key (stored f.identities))
        ≡ (if url == key then loaded (some id) else load_from json key r)
      → RoundTrips json (some f)
      → Saved r disk (save_merged json writes (some f) disk)
  unfolding load
  save_file f r disk v found trip = elim (Option-cases (json.marshal f)) [
    | inl stuck ↦ rw stuck (λ bad. cc, λ same. refl)
    | inr (bytes, encoded) ↦ elim (Bool-cases writes) [
      | inl done ↦ rw (encoded, done) (λ ok. rw (load, trip bytes encoded, v) found, λ bad. cc)
      | inr lost ↦ rw (encoded, lost) (λ bad. cc, λ same. refl)
    ]
  ]

  IsCurrent : ReadResult → Type 0
  IsCurrent (file_read f) = f.version ≡ format_version
  IsCurrent _ = Unit

  read_parsed-IsCurrent : (o : Option FileFormat) → IsCurrent (read_parsed o)
  unfolding IsCurrent
  read_parsed-IsCurrent none = record {}
  read_parsed-IsCurrent (some f) = elim (Bool-cases (f.version == format_version)) [
    | inl same ↦ rw same ((eq_iff f.version format_version).0 same)
    | inr other ↦ rw other (record {})
  ]

  read-IsCurrent : (disk : Disk) → IsCurrent (read json disk)
  unfolding IsCurrent
  read-IsCurrent missing = record {}
  read-IsCurrent unreadable = record {}
  read-IsCurrent (contents bytes) = read_parsed-IsCurrent (json.unmarshal bytes)

  save_merged-Saved :
      (r : ReadResult) (disk : Disk)
      → IsCurrent r
      → RoundTrips json (merged json url id r)
      → Saved r disk (save_merged json writes (merged json url id r) disk)
  unfolding IsCurrent lookup
  save_merged-Saved read_error disk v trip = (λ bad. cc, λ same. refl)
  save_merged-Saved no_file disk v trip =
      save_file _ no_file disk refl (ground (arith, lookup-insert url key id [])) trip
  save_merged-Saved (file_read f) disk v trip =
      save_file _ (file_read f) disk v
        (ground (arith, lookup-insert url key id (stored f.identities))) trip

-- Where JSON gives back what Save writes: after a Save that succeeds, Load gives the saved identity for
-- its URL and for every other URL what it gave before; a Save that fails leaves the file as it was.
pub load-save :
    (json : Json) (writes : Bool) (url key : Str) (id : Identity) (disk : Disk)
    → RoundTrips json (merged json url id (read json disk))
    → ((save json writes url id disk).0 ≡ true
        → load json key (save json writes url id disk).1
          ≡ (if url == key then loaded (some id) else load json key disk))
      × ((save json writes url id disk).0 ≡ false → (save json writes url id disk).1 ≡ disk)
unfolding save load
load-save json writes url key id disk trip =
    save_merged-Saved json writes url key id (read json disk) disk
      (read-IsCurrent json writes url key id disk) trip
