-- ===== src/Examples/Identities.antt =====
-- A state file with one identity, and the Save of another.
use forgery.Base.{
  text, ◌≡◌, refl, sym, true, false, some, [], ◌∷◌, insert, str_eq, ◌==◌, if◌then◌else◌,
}
use mathlib.Core.Option.{some-injective}
use forgery.State.{Identity, FileFormat, Json, Disk, contents, loaded, load, save, read, merged}
use forgery.State.Identities.{RoundTrips, load-save}

abbrev first : Identity
first = record { uuid = text "u1"; token = text "t1" }

abbrev second : Identity
second = record { uuid = text "u2"; token = text "t2" }

abbrev before : FileFormat
before = record { version = 1; identities = some ((text "https://one", first) ∷ []) }

abbrev after : FileFormat
after = record {
  version = 1;
  identities = some (insert (text "https://two") second ((text "https://one", first) ∷ []));
}

abbrev json : Json
json = record {
  unmarshal = λ bytes. if bytes == text "before" then some before else some after;
  marshal = λ f. some (text "after");
}

abbrev disk : Disk
disk = contents (text "before")

trips : RoundTrips json (merged json (text "https://two") second (read json disk))
trips bytes written = rw (sym (some-injective (text "after") bytes written)) refl

load-save_example :
    ((save json true (text "https://two") second disk).0 ≡ true
      → load json (text "https://one") (save json true (text "https://two") second disk).1 ≡ (
          if text "https://two" == text "https://one"
          then loaded (some second)
          else load json (text "https://one") disk))
    × ((save json true (text "https://two") second disk).0 ≡ false
        → (save json true (text "https://two") second disk).1 ≡ disk)
load-save_example = load-save json true (text "https://two") (text "https://one") second disk trips
