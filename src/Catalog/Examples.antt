-- ===== src/Catalog/Examples.antt =====
-- A catalog at work, and the runs of its theorems on it.
use gptsession_bridge.Values.Strings.{concat, starts_with, starts_with_lower, trim_start}
use gptsession_bridge.Namespace.{is_base64url, is_reserved_text}
use gptsession_bridge.Protocol.Text.{all_chars, utf16_length}
use gptsession_bridge.Shared.{
  ℕ, ◌≡◌, refl, arith, String, true, false, List, [], ◌∷◌, map, Option, none, some, ok, err, take,
  drop, all, contains,
}
use gptsession_bridge.Shared.Table.{get, has, set}
use gptsession_bridge.Catalog.Codes.{cursor_expired, invalid_cursor}
use gptsession_bridge.Catalog.Cursors.{
  Store, Call, creates, reads, sizes, create_store, create, read, run,
}
use gptsession_bridge.Catalog.Cursors.Bounds.{IsStore, create_store-run-IsStore}
use gptsession_bridge.Catalog.Cursors.Lifetime.{create-run-read, read-expired-read}
use gptsession_bridge.Catalog.Virtual.{Entry, entry_of}
use gptsession_bridge.Catalog.Models.{
  Native, NativePage, native, web, Context, Catalog, World, paginate,
}
use gptsession_bridge.Catalog.Merge.{merge_native_page}
use gptsession_bridge.Catalog.Merge.Disjoint.{Merges, merge_native_page-Merges}
use gptsession_bridge.Catalog.Merge.Continued.{Continues, merge_native_page-Continues}
use gptsession_bridge.Catalog.Paging.{Leaves, paginate-Leaves}
use gptsession_bridge.Catalog.Paging.Walk.{Visit, shown, walk-shown}
use gptsession_bridge.Catalog.Setup.{synthetic_definition}

abbrev store : Store ℕ
store = record { entries = []; max_entries = 2; prefix = "c:"; ttl = 100 }

store_created : create_store 2 100 (some "c:") ≡ ok store
unfolding create_store utf16_length
store_created = refl

abbrev draw : ℕ → Option String
draw i = some "0123456789abcdef"

abbrev draw_other : ℕ → Option String
draw_other i = some "fedcba9876543210"

abbrev store_calls : List (Call ℕ)
store_calls =
    creates 7 (some 5) draw
    ∷ creates 8 (some 6) draw_other
    ∷ reads "c:0123456789abcdef" (some 200)
    ∷ sizes none
    ∷ []

create_store-run-IsStore_example : IsStore (run store_calls store)
create_store-run-IsStore_example =
    create_store-run-IsStore 2 100 (some "c:") store store_calls store_created

abbrev made : Store ℕ
made = record store {
  entries = ("c:0123456789abcdef", record { expires_at = 105; value = 7 }) ∷ [];
}

create-run-read_example :
    (read "c:0123456789abcdef"
      (some 104)
      (run (creates 8 (some 6) draw_other ∷ sizes (some 50) ∷ []) made)).0
    ≡ ok 7
unfolding create utf16_length all_chars is_base64url has concat set
create-run-read_example =
    create-run-read 7 5 104 draw store made "c:0123456789abcdef"
      (creates 8 (some 6) draw_other ∷ sizes (some 50) ∷ []) refl (omega arith)
      (λ now e. ground arith, (λ now e. ground arith, tt)) (omega arith) (omega arith)

made-IsStore : IsStore made
unfolding has starts_with
made-IsStore = record {
  room = omega arith;
  few = omega arith;
  distinct = (refl, tt);
  owned = (refl, omega arith, tt);
}

read-expired-read_example :
    ((read "c:0123456789abcdef" (some 105) made).0 ≡ err cursor_expired)
    × ((read "c:0123456789abcdef" (some 106) (read "c:0123456789abcdef" (some 105) made).1).0
        ≡ err invalid_cursor)
unfolding starts_with get
read-expired-read_example =
    read-expired-read "c:0123456789abcdef" (record { expires_at = 105; value = 7 }) 105 106 made
      made-IsStore refl refl (omega arith) (omega arith) (omega arith)

abbrev example_entry : Entry
example_entry = entry_of synthetic_definition

abbrev catalog : Catalog
catalog = record {
  store = record { entries = []; max_entries = 2; prefix = "c:"; ttl = 100 };
  default_limit = 100;
  fixed = some (example_entry ∷ []);
}

abbrev world : World
world = record { source = none; read_clock = some 5; clock = some 5; random = draw }

abbrev native_entry : Native
native_entry = record { id = "gpt"; model = "gpt"; is_default = true }

abbrev context : Context
context = record {
  complete = true;
  include_hidden = false;
  limit = 2;
  native_cursor = none;
  ids = "o1" ∷ [];
  models = "o1" ∷ [];
  virtual_models = example_entry ∷ [];
}

abbrev last_page : NativePage
last_page = record { listed = native_entry ∷ []; next_cursor = none }

merge_native_page-Merges_example :
    Merges context last_page
      (record { items = native native_entry ∷ web example_entry ∷ []; next_cursor = none })
unfolding merge_native_page all utf16_length contains is_reserved_text starts_with_lower trim_start
merge_native_page-Merges_example =
    merge_native_page-Merges world context last_page catalog catalog
      (record { items = native native_entry ∷ web example_entry ∷ []; next_cursor = none }) refl

abbrev first_page : NativePage
first_page = record { listed = native_entry ∷ []; next_cursor = some "more" }

abbrev continued : Catalog
continued = (merge_native_page world context (some first_page) catalog).1

merge_native_page-Continues_example :
    Continues world context first_page catalog
      (record { items = native native_entry ∷ []; next_cursor = some "c:0123456789abcdef" })
      continued
unfolding merge_native_page utf16_length all contains is_reserved_text starts_with_lower trim_start
    create all_chars is_base64url has concat
merge_native_page-Continues_example =
    merge_native_page-Continues world context first_page catalog continued
      (record { items = native native_entry ∷ []; next_cursor = some "c:0123456789abcdef" }) refl

paginate-Leaves_example :
    (web example_entry ∷ [] ≡ map web (take 1 (example_entry ∷ example_entry ∷ [])))
    × Leaves world false
        (drop 1 (example_entry ∷ example_entry ∷ []))
        catalog
        (some "c:0123456789abcdef")
        (paginate world (example_entry ∷ example_entry ∷ []) 1 false catalog).1
unfolding paginate create utf16_length all_chars is_base64url has concat
paginate-Leaves_example =
    paginate-Leaves world (example_entry ∷ example_entry ∷ []) 1 false catalog
      (paginate world (example_entry ∷ example_entry ∷ []) 1 false catalog).1
      (record { items = web example_entry ∷ []; next_cursor = some "c:0123456789abcdef" }) refl

abbrev two_entries : List Entry
two_entries = example_entry ∷ example_entry ∷ []

-- The first of two models, and then the other.
abbrev first_visit : Visit
first_visit = record {
  world = world;
  limit = 1;
  hidden = false;
  before = catalog;
  after = (paginate world two_entries 1 false catalog).1;
  page = record { items = web example_entry ∷ []; next_cursor = some "c:0123456789abcdef" };
  now = 5;
  later = 6;
  between = [];
  flag = false;
  rest = example_entry ∷ [];
}

abbrev second_visit : Visit
second_visit = record {
  world = world;
  limit = 1;
  hidden = false;
  before = catalog;
  after = catalog;
  page = record { items = web example_entry ∷ []; next_cursor = none };
  now = 5;
  later = 6;
  between = [];
  flag = false;
  rest = [];
}

walk-shown_example : shown (first_visit ∷ second_visit ∷ []) ≡ map web two_entries
unfolding paginate create utf16_length all_chars is_base64url has concat read starts_with run get
    set
walk-shown_example =
    walk-shown (first_visit ∷ second_visit ∷ []) two_entries
      ((refl, (refl, omega arith, tt, omega arith, omega arith, refl)), ((refl, refl), refl))
