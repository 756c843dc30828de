-- ===== src/Configuration/Table.antt =====
-- A configuration as two tables, of the context and of the files: the laws of libuci can hold.
use text.Mathlib.Text.{◌==◌}
use text.Mathlib.TextPositions.{eq_refl}
use koruza_driver.Prelude.{
  ◌≡◌, ◌≢◌, refl, true, print_int, Bool-cases, inl, inr, String, eq_iff, if◌then◌else◌,
}
use koruza_driver.Configuration.{has_section, Found, no_string, string, Uci, UciLaws}

pub record Tables : Type 0 where
  pub context : String → Found
  pub files : String → Found

abbrev pub put : Found → String → (String → Found) → String → Found
put f l t k = if l == k then f else t k

-- A location whose section is missing cannot be written.
abbrev write : Found → String → (String → Found) → String → Found
write f l t = if has_section (t l) then put f l t else t

abbrev pub tables : Uci Tables
tables = record {
  uci_lookup_ptr = λ s l. s.context l;
  uci_set = λ s l v. record s { context = write (string v) l s.context };
  uci_delete = λ s l. record s { context = write no_string l s.context };
  uci_commit = λ s. (true, record { context = s.context; files = s.context });
  restarted = λ s. record { context = s.files; files = s.files };
}

put_same : (f : Found) (l : String) (t : String → Found) → put f l t l ≡ f
put_same f l t = rw (eq_refl l) refl

put_other : (f : Found) (l k : String) (t : String → Found) → l ≢ k → put f l t k ≡ t k
put_other f l k t h = elim (Bool-cases (l == k)) [
  | inl e ↦ absurd (h ((eq_iff l k).0 e))
  | inr e ↦ rw e refl
]

write_same :
    (f : Found) (l : String) (t : String → Found) → has_section (t l) ≡ true → write f l t l ≡ f
write_same f l t h = rw h (put_same f l t)

write_other : (f : Found) (l k : String) (t : String → Found) → l ≢ k → write f l t k ≡ t k
write_other f l k t h = elim (Bool-cases (has_section (t l))) [
  | inl y ↦ rw y (put_other f l k t h)
  | inr n ↦ rw n refl
]

pub tables_laws : UciLaws tables
tables_laws = record {
  set_same = λ s l a o h i. write_same (string (print_int a)) l s.context h;
  set_other = λ s l k v o p h. write_other (string v) l k s.context h;
  delete_same = λ s l o h. write_same no_string l s.context h;
  delete_other = λ s l k o p h. write_other no_string l k s.context h;
  commit_keeps = λ s l o h. refl;
  commit_restarted = λ s l o h. refl;
}
