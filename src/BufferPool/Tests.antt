-- ===== src/BufferPool/Tests.antt =====
-- A pool with no frames, a page that is made in it, and the theorems at them.
use database_hw.Prelude.{◌≡◌, refl, true, [], none}
use database_hw.Types.{TablePageid}
use database_hw.Result.{ok, ◌>>=◌}
use database_hw.Bytes.{Memory}
use database_hw.TablePage.{Page}
use database_hw.Log.Manager.{new_log_manager}
use database_hw.BufferPool.{BufferPool, get_page, new_page, write_through, flush, clear}
use database_hw.BufferPool.Refine.{Models, InPool, updated, get_page-Models}
use database_hw.BufferPool.Writes.{new_page-Models}
use database_hw.BufferPool.Flush.{no_frames-Models, flush-Models}

-- The byte of a page on the disk is the page's number.
abbrev stored_pages : TablePageid → Memory
stored_pages k i = k.page_id

abbrev cold : BufferPool
cold = record {
  disk = λ d k i. k.page_id;
  log_manager =
      new_log_manager (record { bytes = λ i. 0; size = 0; log_segments = 0 }) none none 13;
  buffer_strategy = [];
  buffers = [];
  hashmap = [];
  systable_buffers = [];
  systable_hashmap = [];
}

cold-Models : Models 2 stored_pages cold
cold-Models = no_frames-Models 2 stored_pages cold refl (λ f h. absurd h) (λ k. refl) (λ k. refl)

abbrev key : TablePageid
key = record { table_oid = 10000; page_id = 3 }

get_page-Models_example :
    (s' : BufferPool) × (p : Page) × (get_page cold 2 key ≡ ok (s', p))
    × (p.bytes ≡ stored_pages key)
    × Models 2 stored_pages s'
    × InPool 2 s' key
get_page-Models_example = get_page-Models 2 refl stored_pages cold key cold-Models

abbrev sevens : Page
sevens = record { bytes = λ i. 7; dirty = true }

abbrev with_sevens : TablePageid → Memory
with_sevens = updated 2 stored_pages key sevens.bytes

new_page-Models_example :
    (s' : BufferPool) × (new_page cold 2 key (λ i. 0)
        >>= (λ (r : BufferPool × Page). write_through r.0 key sevens)
      ≡ ok s')
    × Models 2 with_sevens s'
new_page-Models_example =
    new_page-Models 2 refl stored_pages cold key (λ i. 0) sevens cold-Models refl refl

-- The pool with the page.
abbrev warm : BufferPool
warm = new_page-Models_example.0

flush-Models_example :
    (s' : BufferPool) × (flush warm true ≡ ok s')
    × Models 2 with_sevens s'
    × Models 2 with_sevens (clear s')
    × ((k : TablePageid) → s'.disk 2 k ≡ with_sevens k)
flush-Models_example = flush-Models 2 with_sevens warm new_page-Models_example.2
