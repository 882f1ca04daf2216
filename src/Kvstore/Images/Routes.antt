-- ===== src/Kvstore/Images/Routes.antt =====
-- The image routes together: what is uploaded can be fetched both ways.
use cloudlab_k8s.Prelude.{
  ◌≡◌, refl, ap, ◌∙◌, true, some, List, arith, Text, text_key, ◌==◌, lookup-insert, if◌then◌else◌,
}
use cloudlab_k8s.Kvstore.Store.{Store, at, get_values, get_key}
use cloudlab_k8s.Kvstore.Store.Count.{count}
use cloudlab_k8s.Kvstore.Store.Consistent.{
  IsConsistent, put_values-IsConsistent, build_index-put_values, table-put_values,
}
use cloudlab_k8s.Kvstore.Images.{
  CreateImageRequest, content_of, index_of, get_content, get_index, put_image,
}

module _ (s : Store) (c : IsConsistent s) (request : CreateImageRequest) where
  values-put_image :
      (k : Text)
      → at k (put_image s request).0.table
        ≡ (if request.image == k then request.files else at k s.table)
  unfolding put_image
  values-put_image k =
      rw (table-put_values s request.image request.files)
        (ground (arith, lookup-insert request.image k request.files s.table))

  -- Into a store whose index is in step, upload_image puts the files so that get_content of the
  -- image returns them and other images keep theirs, and get_index of a file lists an image as
  -- often as get_content of that image then lists the file. `request` is any body, also one that
  -- the decoder refused.
  pub put_image-routes :
      (k v : Text)
      → s.build_index ≡ true
      → (get_content (put_image s request).0 (some k)
          ≡ content_of (if request.image == k then request.files else get_values s k))
        × ((keys : List Text) × (get_index (put_image s request).0 (some v) ≡ index_of keys)
            × (count k keys ≡ count v (get_values (put_image s request).0 k)))
  unfolding get_content get_index get_values get_key
  put_image-routes k v b = (
    ap content_of (values-put_image k),
    (
      at v (put_image s request).0.index,
      rw indexed refl,
      (put_image-IsConsistent).indexed k v indexed,
    ),
  )
    where
      indexed : (put_image s request).0.build_index ≡ true
      indexed = unfold put_image in build_index-put_values s request.image request.files ∙ b

      put_image-IsConsistent : IsConsistent (put_image s request).0
      put_image-IsConsistent =
          unfold put_image in put_values-IsConsistent s request.image request.files c
