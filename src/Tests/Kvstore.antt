-- ===== src/Tests/Kvstore.antt =====
-- The theorems on the key-value store at small stores of images and layers.
use cloudlab_k8s.Prelude.{
  ◌≡◌, refl, true, false, Option, none, some, List, [], ◌∷◌, Text, text_key, text_beq_iff, ◌==◌,
  Map, lookup, insert, Enumerates, arith, beq_refl, lookup-insert, if◌then◌else◌,
}
use cloudlab_k8s.Kvstore.Store.{
  Store, new, get, get_key, get_values, Op, put_op, put_values_op, run,
}
use cloudlab_k8s.Kvstore.Store.Count.{count}
use cloudlab_k8s.Kvstore.Store.Consistent.{get_key-run, new-IsConsistent}
use cloudlab_k8s.Kvstore.Store.Contents.{run-Contents, history, values_of, first_of_values}
use cloudlab_k8s.Kvstore.File.{save, restore}
use cloudlab_k8s.Kvstore.File.Roundtrip.{IsSavable, IsRestored, restore-save}
use cloudlab_k8s.Kvstore.Registry.{Registry, new_store, get_store, watch_one}
use cloudlab_k8s.Kvstore.Registry.Names.{get_store-new_store}
use cloudlab_k8s.Kvstore.Registry.Watch.{IsSaved, watch_one-IsSaved}
use cloudlab_k8s.Kvstore.Images.{
  CreateImageRequest, content_of, index_of, get_content, get_index, put_image,
}
use cloudlab_k8s.Kvstore.Images.Routes.{put_image-routes}

abbrev pub web : Text
web = b'w' ∷ []

abbrev pub cron : Text
cron = b'c' ∷ []

abbrev base_layer : Text
base_layer = b'1' ∷ []

abbrev app_layer : Text
app_layer = b'2' ∷ []

-- Two images that share a layer, one of them put anew.
abbrev uploads : List Op
uploads =
    put_values_op web (base_layer ∷ app_layer ∷ [])
    ∷ put_op cron base_layer
    ∷ put_op web app_layer
    ∷ []

get_key-run_example :
    count cron (get_key (run (new true) uploads) base_layer)
    ≡ count base_layer (get_values (run (new true) uploads) cron)
get_key-run_example = get_key-run true uploads cron base_layer

run-Contents_example :
    (get_values (run (new true) uploads) web ≡ values_of (history (λ _. none) uploads web))
    × (get (run (new true) uploads) web
        ≡ first_of_values (values_of (history (λ _. none) uploads web)))
run-Contents_example = run-Contents true uploads web

-- What a store holds, as its map, and the map in another order.
abbrev images : Map Text (List Text)
images = (web, base_layer ∷ app_layer ∷ []) ∷ (cron, base_layer ∷ []) ∷ []

abbrev images_visited : Map Text (List Text)
images_visited = (cron, base_layer ∷ []) ∷ (web, base_layer ∷ app_layer ∷ []) ∷ []

abbrev pub loaded_store : Store
loaded_store = record { table = images; index = []; build_index = false; changed = true }

either_order : (k : Text) → lookup k images_visited ≡ lookup k images
unfolding lookup
either_order k = ground (arith, text_beq_iff web k, text_beq_iff cron k)

pub images-Enumerates : Enumerates images_visited images
images-Enumerates = record {
  distinct = (unfold lookup in refl, (unfold lookup in refl, tt));
  same = either_order;
}

pub images-IsSavable : IsSavable images_visited
images-IsSavable = ground arith

restore-save_example :
    IsRestored true loaded_store
      (restore (new false) (some (save images_visited loaded_store).1) true).0
    × ((restore (new false) (some (save images_visited loaded_store).1) true).1 ≡ true)
restore-save_example =
    restore-save loaded_store (new false) images_visited true images-Enumerates images-IsSavable

abbrev pub no_stores : Registry
no_stores = record { stores = []; watched = []; initialized = false }

get_store-new_store_example :
    (get_store (new_store no_stores web false).0 web).1 ≡ some (new_store no_stores web false).1
get_store-new_store_example = get_store-new_store no_stores web false (λ _. unfold lookup in refl)

-- A disk as the map of its files, which is read back as it was written.
abbrev pub Disk : Type 0
Disk = Map Text Text

abbrev pub read_disk : Text → Disk → Option Text
read_disk name disk = lookup name disk

abbrev pub visit_all : Store → Map Text (List Text)
visit_all s = images_visited

pub read_insert : (n c : Text) (d : Disk) → read_disk n (insert n c d) ≡ some c
read_insert n c d = rw (lookup-insert n n c d, beq_refl n) refl

unsaved : IsSaved false (read_disk cron []) loaded_store
unsaved = record { file = λ h. cc }

watch_one-IsSaved_example :
    IsSaved false
      (read_disk cron (watch_one visit_all insert cron loaded_store []).1)
      (watch_one visit_all insert cron loaded_store []).0
    × ((watch_one visit_all insert cron loaded_store []).0.changed ≡ false)
watch_one-IsSaved_example =
    watch_one-IsSaved visit_all insert read_disk read_insert false cron loaded_store []
      images-Enumerates images-IsSavable unsaved

unsaved_web : IsSaved false (read_disk web []) loaded_store
unsaved_web = record { file = λ h. cc }

-- The store and the disk after the watcher wrote the file.
abbrev saved_store : Store
saved_store = (watch_one visit_all insert web loaded_store []).0

abbrev save_disk : Disk
save_disk = (watch_one visit_all insert web loaded_store []).1

abbrev upload : CreateImageRequest
upload = record { image = cron; files = app_layer ∷ []; error = none }

put_image-routes_example :
    (get_content (put_image (new true) upload).0 (some cron)
      ≡ content_of (if upload.image == cron then upload.files else get_values (new true) cron))
    × ((keys : List Text) × (get_index (put_image (new true) upload).0 (some app_layer)
          ≡ index_of keys)
        × (count cron keys ≡ count app_layer (get_values (put_image (new true) upload).0 cron)))
put_image-routes_example =
    put_image-routes (new true) (new-IsConsistent true) upload cron app_layer refl
