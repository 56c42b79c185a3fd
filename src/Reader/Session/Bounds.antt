-- ===== src/Reader/Session/Bounds.antt =====
-- What a client of src/reader.rs can get of a new reader, whatever it does.
use etar.Prelude.{ℕ, ◌-◌, ◌*◌, ◌≤◌, ◌<◌, ◌≡◌, subst, some, arith}
use etar.Limits.{SecurityLimits}
use etar.Io.{Shared, u64_mod}
use etar.Open.OpenEntry.{OpenEntry}
use etar.Reader.{TarParser}
use etar.Reader.Poison.{KeepsFailed}
use etar.Reader.Session.{Session, new_session, Reach}
use etar.Reader.Session.Entries.{IsGuarded}
use etar.Reader.Session.Invariant.{Guarded, Reach-Inv, new_session-Inv}

scaled : (entries most max : ℕ) → entries ≤ most → entries * max ≤ most * max
scaled entries most max h = grind (arith, h)

module _ {A B S : Type 0} (parser : TarParser A B S) (keeps : KeepsFailed parser.poll_body)
    (limits : SecurityLimits) (countable : limits.max_entries < u64_mod - 1) where
  -- Whatever a client does with a new reader, in any order of calls that return, calls that are
  -- dropped, and polls of the body of the entry that it has: it gets `max_entries` entries at most, and
  -- from their bodies `max_entry_bytes` bytes at most for each entry that it has got, so at most the
  -- product of the two limits. The limit on the entries is below the largest 64-bit number, and the
  -- parser's polls do not take the flag of a failed body back.
  pub new_session-Bounds :
      (archive : A) (sh : Shared) {t : Session A B}
      → Reach parser (new_session archive limits sh) t
      → (t.entries ≤ limits.max_entries)
        × (t.body_bytes ≤ t.entries * limits.max_entry_bytes)
        × (t.body_bytes ≤ limits.max_entries * limits.max_entry_bytes)
  new_session-Bounds archive sh {t} r =
      let v =
        Reach-Inv parser keeps limits countable
          (new_session-Inv parser keeps limits countable archive sh) r in
      let product = scaled t.entries limits.max_entries limits.max_entry_bytes v.few in
      (v.few, omega (arith, v.bounded), omega (arith, v.bounded, product))

  -- Whatever a client does with a new reader, the entry that it has been lent, however much of the body
  -- has been read, satisfies every limit of the reader that was made and every rule on paths.
  pub new_session-IsGuarded :
      (archive : A) (sh : Shared) {t : Session A B} (o : OpenEntry B)
      → Reach parser (new_session archive limits sh) t
      → t.lent ≡ some o
      → IsGuarded limits o
  new_session-IsGuarded archive sh o r e =
      subst (Guarded limits) e
        (Reach-Inv parser keeps limits countable
          (new_session-Inv parser keeps limits countable archive sh) r).guarded
