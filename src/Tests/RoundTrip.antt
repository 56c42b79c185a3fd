-- ===== src/Tests/RoundTrip.antt =====
-- A file and a symbolic link that are written, and their headers read back.
use etar.Prelude.{
  ℕ, false, ◌≡◌, refl, none, List, [], ◌∷◌, codes, map, ok, arith, true, ◌>>=◌, inl, inr,
}
use etar.Entry.{
  symlink, new_safe_path, validate, reject_all, reject_unsafe, components, components_of, pieces,
  later_components, later_component,
}
use etar.Limits.{SecurityLimits, default}
use etar.Io.Await.{read, await_turn}
use etar.Io.Contract.{Memory, poll_memory}
use etar.Open.OpenEntry.{TarEntry, open_entry}
use etar.Pack.{
  PackEntry, base_header, append, append_kind, append_meta, meta_appended, append_file,
  file_appended, probed,
}
use etar.Pack.Body.{poll_exact, exact_read}
use etar.Pack.Builder.{poll_empty}
use etar.Pack.Recorded.{Written, recorded, SetsLinkName, header_of}
use etar.Reader.Body.{header}
use etar.Tests.Packing.{fresh, small_builder, hello_entry}
use etar.Writer.{Writer, tar_builder, append_inner, append_entry, conclude}
use etar.Writer.Poison.{append_all, all_succeeded}
use etar.Writer.RoundTrip.{ReadsBack, IsWithin, entry_header, written, append_all-round_trip}

abbrev read_back : Written → TarEntry (Unit {0})
read_back (h, path) = record {
  path = ok path;
  entry_type = h.entry_type;
  size = ok h.size;
  link_name = ok h.link_name;
  mode = ok h.mode;
  uid = ok h.uid;
  gid = ok h.gid;
  mtime = ok h.mtime;
  body = tt;
}

abbrev link_entry : PackEntry Memory
link_entry = record {
  path = record { path = codes "latest" };
  meta = record {
    mode = 511;
    uid = 7;
    gid = 8;
    mtime_unix_secs = 99;
    kind = symlink (codes "hello.txt");
  };
  size = 0;
  body = none;
}

abbrev entries : List (PackEntry Memory)
entries = hello_entry 3 ∷ link_entry ∷ []

abbrev limits : SecurityLimits
limits = record default { allow_symlinks = true }

abbrev new : Writer (List (List ℕ) × List Written) (List (List ℕ) × List Written)
new = record { inner = tar_builder ([], []); failed = false }

small_builder-SetsLinkName : SetsLinkName small_builder
small_builder-SetsLinkName header target named h = cc

hello-IsWithin : IsWithin limits (hello_entry 3)
unfolding new_safe_path validate reject_all reject_unsafe components components_of pieces
    later_components later_component
hello-IsWithin = record {
  safe = refl;
  short = omega arith;
  allowed = tt;
  sized = inl refl;
  small = omega arith;
  uid = omega arith;
  gid = omega arith;
}

link-IsWithin : IsWithin limits link_entry
unfolding new_safe_path validate reject_all reject_unsafe components components_of pieces
    later_components later_component
link-IsWithin = record {
  safe = refl;
  short = omega arith;
  allowed = refl;
  sized = inr refl;
  small = omega arith;
  uid = omega arith;
  gid = omega arith;
}

hello-ReadsBack :
    ReadsBack
      (header_of (hello_entry 3))
      (codes "hello.txt")
      (read_back (header_of (hello_entry 3), codes "hello.txt"))
hello-ReadsBack = record {
  path = refl;
  entry_type = refl;
  size = refl;
  link_name = refl;
  mode = refl;
  uid = refl;
  gid = refl;
  mtime = refl;
}

link-ReadsBack :
    ReadsBack
      (header_of link_entry)
      (codes "latest")
      (read_back (header_of link_entry, codes "latest"))
link-ReadsBack = record {
  path = refl;
  entry_type = refl;
  size = refl;
  link_name = refl;
  mode = refl;
  uid = refl;
  gid = refl;
  mtime = refl;
}

entries-succeed :
    all_succeeded
      (recorded small_builder)
      (recorded small_builder)
      poll_memory
      2
      (append_all
        (recorded small_builder)
        (recorded small_builder)
        poll_memory
        2
        new
        entries
        fresh).1
    ≡ true
unfolding append_all append_entry append_inner conclude append append_kind append_meta meta_appended
    base_header append_file file_appended probed poll_exact exact_read poll_memory poll_empty read
    await_turn
entries-succeed = refl

append_all-round_trip_example :
    map
      (λ r. open_entry (read_back r) limits >>= λ o. ok (header o))
      (written
        (append_all
          (recorded small_builder)
          (recorded small_builder)
          poll_memory
          2
          new
          entries
          fresh).0.inner)
    ≡ map (λ e. ok (entry_header e)) entries
append_all-round_trip_example =
    append_all-round_trip small_builder small_builder small_builder-SetsLinkName
      small_builder-SetsLinkName poll_memory 2 limits read_back new entries fresh refl
      (hello-IsWithin, (link-IsWithin, tt)) (hello-ReadsBack, (link-ReadsBack, tt)) entries-succeed
