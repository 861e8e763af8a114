-- ===== src/Storage/PageManager.antt =====
-- The pages that the B+tree stands on: include/storage/pagemanager.h.
pub mod Growing
use sqldb.Base.{ℕ, ◌<◌, ◌≤◌, ◌≡◌, Result, ok}
use sqldb.Storage.Node.{BNode, btree_page_size}
use sqldb.Storage.Node.Build.{IsComplete, used}

-- IPageManager of include/storage/pagemanager.h. A page that is live stays as it is, whatever else is
-- written or given up: a transaction takes no page that it, or a reader, still uses.
pub record PageManager (S : Type 0) : Type 1 where
  pub get : S → ℕ → Result BNode
  pub new_page : S → BNode → ℕ × S
  pub del : S → ℕ → S
  pub live : S → ℕ → Type 0
  pub new_page-live : (s : S) (n : BNode) → live (new_page s n).1 (new_page s n).0
  pub live-pos : (s : S) (p : ℕ) → live s p → 0 < p
  pub get-new_page :
      (s : S) (n : BNode)
      → IsComplete n
      → used n.entries ≤ btree_page_size
      → get (new_page s n).1 (new_page s n).0 ≡ ok n
  pub new_page-keeps :
      (s : S) (n : BNode) (p : ℕ)
      → live s p
      → live (new_page s n).1 p × (get (new_page s n).1 p ≡ get s p)
  pub del-keeps : (s : S) (q p : ℕ) → live s p → live (del s q) p × (get (del s q) p ≡ get s p)
