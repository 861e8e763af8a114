-- ===== src/Storage/PageManager/Growing.antt =====
-- A page manager for concrete trees: its pages are numbered from 1 on, and none is given up.
use sqldb.Base.{ℕ, ◌+◌, ◌≤◌, ◌<◌, ◌≡◌, refl, Result, ok, ◌==◌, if◌then◌else◌, arith}
use sqldb.Storage.Node.{BNode}
use sqldb.Storage.PageManager.{PageManager}

pub record Store : Type 0 where
  pub last : ℕ
  pub page : ℕ → Result BNode

abbrev pub write : Store → BNode → Store
write s n = record { last = s.last + 1; page = λ p. if p == s.last + 1 then ok n else s.page p }

pub write_get : (s : Store) (n : BNode) → (write s n).page (s.last + 1) ≡ ok n
write_get s n = ground arith

pub write_keeps :
    (s : Store) (n : BNode) (p : ℕ)
    → (0 < p) × (p ≤ s.last)
    → ((0 < p) × (p ≤ s.last + 1)) × ((write s n).page p ≡ s.page p)
write_keeps s n p h = ground (arith, h)

abbrev pub store_pages : PageManager Store
store_pages = record {
  get = λ s p. s.page p;
  new_page = λ s n. (s.last + 1, write s n);
  del = λ s p. s;
  live = λ s p. (0 < p) × (p ≤ s.last);
  new_page-live = λ s n. (omega arith, omega arith);
  live-pos = λ s p h. h.0;
  get-new_page = λ s n complete small. write_get s n;
  new_page-keeps = write_keeps;
  del-keeps = λ s q p h. (h, refl);
}
