-- ===== src/Proxy/Riak/Searches.antt =====
-- The connection of proxy/riak.go over the documents that Riak holds: what the searches return after
-- any sequence of its calls.
use cloudlab_k8s.Prelude.{List, [], ◌∷◌, string_key}
use cloudlab_k8s.Proxy.Types.{Net, CachedInstance}
use cloudlab_k8s.Proxy.Pmap.{In}
use cloudlab_k8s.Proxy.Riak.{Codec, SearchDoc, RiakClient}
use cloudlab_k8s.Proxy.Riak.Roundtrip.{IsDocOf}
use cloudlab_k8s.Proxy.Riak.Indexed.{IsIndexed}
use cloudlab_k8s.Proxy.Riak.Calls.{Call, IsWritable, AllWritable}

module _ {R : Type 0} (net : Net) (codec : Codec) (client : RiakClient R)
    (contents : R → List SearchDoc) (laws : IsIndexed codec client contents) where
  -- Every document that is held is one of an instance that may be.
  abbrev Tracks : R × List CachedInstance → Type 0
  Tracks s =
      (d : SearchDoc)
      → In d (contents s.0)
      → (i : CachedInstance) × In i s.1 × IsDocOf net codec i d × IsWritable net codec i

  abbrev WritableCall : Call → Type 0
  WritableCall c = AllWritable net codec (c ∷ [])
