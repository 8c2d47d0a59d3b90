-- ===== src/Notes/Views/Tests/Database.antt =====
-- A small database with validated commits, which `edit_view` of realworldexamples/django/notes/views.py is run
-- against. The first write meets a commit of another thread.
use pyx.Base.{
  ℕ, ◌≡◌, ◌≢◌, ◌⊎◌, inl, inr, refl, sym, ap, Bool, true, false, Bool-cases, ◌&&◌, Option, none,
  some, [], ◌==◌, if◌then◌else◌, arith,
}
use pyx.Base.Bytes.{Bytes}
use pyx.Base.Int.{ℤ, negsuc, is_negative, int_eq}
use pyx.Errors.{pyx_ok, pyx_not_found, pyx_write_conflict}
use pyx.Doc.Value.{str_eq}
use pyx.Doc.Value.Dict.{str_eq→eq, str_eq_refl}
use pyx.Txn.{Libpyx}
use pyx.Txn.Ops.{Operations}
use pyx.Txn.Serial.{Store, Validating}

-- One transaction at a time, which has read and written at most one document; `intruder` is the commit
-- of another thread that is still to come.
pub record Shelf : Type 0 where
  pub docs : Store
  pub was_read : Option (Bytes × ℕ × Option Bytes)
  pub buffered : Option (Bytes × ℕ × Bytes)
  pub intruder : Option (Bytes × ℕ × Bytes)

abbrev stored : Option (Bytes × ℕ × Bytes) → Store → Store
stored none docs name id = docs name id
stored (some w) docs name id = if str_eq name w.0 && (id == w.1) then some w.2 else docs name id

abbrev same_doc : Option Bytes → Option Bytes → Bool
same_doc none none = true
same_doc (some a) (some b) = str_eq a b
same_doc _ _ = false

abbrev still_holds : Option (Bytes × ℕ × Option Bytes) → Store → Bool
still_holds none docs = true
still_holds (some r) docs = same_doc (docs r.0 r.1) r.2

abbrev begin : Shelf → ℤ × ℕ × Shelf
begin s =
    (pyx_ok, 1, record { docs = s.docs; was_read = none; buffered = none; intruder = s.intruder })

abbrev commit_at : Bool → Shelf → ℤ × Shelf
commit_at true s = (
  pyx_ok,
  record {
    docs = stored s.buffered s.docs;
    was_read = none;
    buffered = none;
    intruder = s.intruder;
  },
)
commit_at false s = (
  pyx_write_conflict,
  record { docs = s.docs; was_read = none; buffered = none; intruder = s.intruder },
)

abbrev pub shelf : Libpyx
shelf = record {
  State = Shelf;
  pyx_begin_optimistic = begin;
  pyx_optimistic_commit = λ h s. commit_at (still_holds s.was_read s.docs) s;
  pyx_optimistic_abort = λ h s. s;
  pyx_begin = λ s. (pyx_ok, s);
  pyx_commit = λ s. (pyx_ok, s);
  pyx_abort = λ s. s;
  pyx_last_error = λ s. "refused";
  randrange = λ n s. (0, s);
  sleep = λ n s. s;
}

abbrev reply : Option Bytes → ℤ × Bytes
reply none = (pyx_not_found, [])
reply (some b) = (pyx_ok, b)

abbrev reading_at : Bytes → ℕ → Shelf → Shelf
reading_at name id s = record {
  docs = s.docs;
  was_read = some (name, id, s.docs name id);
  buffered = s.buffered;
  intruder = s.intruder;
}

abbrev writing : Bytes → ℕ → Bytes → Shelf → Shelf
writing name id b s = record {
  docs = stored s.intruder s.docs;
  was_read = s.was_read;
  buffered = some (name, id, b);
  intruder = none;
}

abbrev pub shelf_operations : Operations shelf
shelf_operations = record {
  pyx_optimistic_insert = λ h name b s. (negsuc 0, 0, s);
  pyx_optimistic_put = λ h name id b s. (pyx_ok, writing name id b s);
  pyx_optimistic_get =
      λ h name id s. ((reply (s.docs name id)).0, (reply (s.docs name id)).1, reading_at name id s);
  pyx_optimistic_delete = λ h name id s. (negsuc 0, s);
  pyx_optimistic_find_one = λ h name field v s. (negsuc 0, 0, s);
  pyx_buf_free = λ b s. s;
}

same_doc→eq : (a b : Option Bytes) → same_doc a b ≡ true → a ≡ b
same_doc→eq none none h = refl
same_doc→eq (some a) (some b) h = ap some (str_eq→eq a b h)
same_doc→eq none (some b) h = absurd (cc)
same_doc→eq (some a) none h = absurd (cc)

pub reply_seen :
    (v : Option Bytes) → (if int_eq (reply v).0 pyx_not_found then none else some (reply v).1) ≡ v
reply_seen none = refl
reply_seen (some b) = refl

accepted : (b : Bool) (s : Shelf) → is_negative (commit_at b s).0 ≡ false → b ≡ true
accepted true s h = refl
accepted false s h = absurd (cc)

pub commit_valid :
    (name : Bytes) (id : ℕ) (v : Option Bytes) (s : Shelf)
    → is_negative (commit_at (still_holds s.was_read s.docs) s).0 ≡ false
    → s.was_read ≡ some (name, id, v)
    → s.docs name id ≡ v
commit_valid name id v s fine read =
    let holds : still_holds s.was_read s.docs ≡ true =
      accepted (still_holds s.was_read s.docs) s fine in
    same_doc→eq (s.docs name id) v (rw read at holds)

pub commit_docs :
    (s : Shelf)
    → is_negative (commit_at (still_holds s.was_read s.docs) s).0 ≡ false
    → (commit_at (still_holds s.was_read s.docs) s).1.docs ≡ stored s.buffered s.docs
commit_docs s fine = rw (accepted (still_holds s.was_read s.docs) s fine) refl

pub stored_here :
    (name : Bytes) (id : ℕ) (b : Bytes) (docs : Store)
    → stored (some (name, id, b)) docs name id ≡ some b
stored_here name id b docs = let same = str_eq_refl name in ground arith

pub stored_other :
    (name other : Bytes) (id k : ℕ) (b : Bytes) (docs : Store)
    → ((other ≢ name) ⊎ (k ≢ id))
    → stored (some (name, id, b)) docs other k ≡ docs other k
stored_other name other id k b docs (inr apart) = ground arith
stored_other name other id k b docs (inl apart) = elim (Bool-cases (str_eq other name)) [
  | inl same ↦ absurd (apart (str_eq→eq other name same))
  | inr differ ↦ rw differ refl
]

abbrev pub shelf-Validating : Validating shelf shelf_operations
shelf-Validating = record {
  committed = λ s. s.docs;
  reached = λ h s. s;
  Seen = λ h s name id v. s.was_read ≡ some (name, id, v);
  written = λ h s. s.buffered;
  begin_real = λ s h. omega arith;
  begin_empty = λ s h. refl;
  get_seen =
      λ h name id s fresh fine. ap (λ v. some (name, id, v)) (sym (reply_seen (s.docs name id)));
  get_writes = λ h name id s. refl;
  free_keeps = λ h b name id v s seen. (seen, refl);
  put_written = λ h name id b s fine fresh. refl;
  put_keeps = λ h name id b v s seen. seen;
  commit_valid = λ h name id v s fine seen. commit_valid name id v s fine seen;
  commit_writes =
      λ h name id b s fine wrote. rw (commit_docs s fine, wrote) (stored_here name id b s.docs);
  commit_others = λ h name other id k b s fine wrote apart.
      rw (commit_docs s fine, wrote) (stored_other name other id k b s.docs apart);
}
