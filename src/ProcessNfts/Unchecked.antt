-- ===== src/ProcessNfts/Unchecked.antt =====
-- What the check of the owner does not cover.
use Prim.Native.Nat.{◌<◌}
use api_elrond_com.Common.{
  ◌≡◌, refl, ap, ◌∙◌, String, Bool, true, false, Option, none, some, List, ltb, eq_iff, string_eq,
  ◌==◌, if◌then◌else◌, arith,
}
use api_elrond_com.ProcessNfts.State.{
  ProcessNftRequest, from_request, IsCounters, World, Env, Error, M, throw, ok,
}
use api_elrond_com.ProcessNfts.{
  process_identifier, target_of, process, process_collection, get_collection_non_sc_owner,
  get_collection_non_sc_owner_raw, owner_key, collection_of, thumbnails_key, increment_remote,
  process_as_owner, process_target, process_with_owner_check,
}
use api_elrond_com.ProcessNfts.Frame.{bind_ok}
use api_elrond_com.ProcessNfts.Limit.{process_with_owner_check-target}

module _ {S O : Type 0} (env : Env S O) (laws : IsCounters env.counters) where
  found_owner :
      (collection address : String) (w : World S O)
      → env.owners.get (owner_key env collection) w.owners ≡ none
      → get_collection_non_sc_owner_raw env collection ≡ ok address
      → get_collection_non_sc_owner env collection w ≡ (
        ok address,
        record w { owners = env.owners.set (owner_key env collection) address w.owners },
      )
  unfolding get_collection_non_sc_owner
  found_owner collection address w fresh owned = rw (fresh, owned, get_collection_non_sc_owner) refl

  process-collection :
      (collection : String) (r : ProcessNftRequest) (w : World S O)
      → r.collection ≡ some collection
      → (collection == "") ≡ false
      → process env r w ≡ process_collection env collection (from_request r) w
  unfolding process
  process-collection collection r w other also =
      ap
        (λ o.
          (elim o as (λ x. M S O (List (String × Bool))) [
            | none ↦ process_identifier env r.identifier (from_request r)
            | some c ↦
                if c == ""
                then process_identifier env r.identifier (from_request r)
                else process_collection env c (from_request r)
          ])
            w)
        other
      ∙ rw also refl

  as_owner :
      (address target : String) (r : ProcessNftRequest) (w : World S O)
      → env.owners.get (owner_key env (collection_of env target)) w.owners ≡ none
      → get_collection_non_sc_owner_raw env (collection_of env target) ≡ ok address
      → process_as_owner env address target r w
        ≡ process env r (record w {
          owners = env.owners.set (owner_key env (collection_of env target)) address w.owners;
        })
  unfolding process_as_owner
  as_owner address target r w fresh owned =
      let self : (address == address) ≡ true = (eq_iff _ _).1 refl in
      bind_ok (get_collection_non_sc_owner env (collection_of env target))
        (λ owner. if address == owner then process env r else throw Error.not_owner) w
        (found_owner (collection_of env target) address w fresh owned)
      ∙ rw self refl

  -- A request with both an identifier and a collection, neither empty, from the owner of the
  -- identifier's collection, processes the whole of the collection that is given, whoever owns it: the
  -- check looks at the identifier and the processing at the collection. It is supposed that the cache
  -- counts, that the owner is not in the cache and that the identifier was asked for less than twice.
  pub process_with_owner_check_unchecked :
      (address identifier collection : String) (r : ProcessNftRequest) (w : World S O)
      → r.identifier ≡ some identifier
      → r.collection ≡ some collection
      → (identifier == "") ≡ false
      → (collection == "") ≡ false
      → env.counters.count (thumbnails_key env identifier) w.counters < 2
      → env.owners.get (owner_key env (collection_of env identifier)) w.owners ≡ none
      → get_collection_non_sc_owner_raw env (collection_of env identifier) ≡ ok address
      → process_with_owner_check env address r w
        ≡ process_collection env collection (from_request r) (record w {
          counters = (env.counters.increment (thumbnails_key env identifier) w.counters).1;
          owners = env.owners.set (owner_key env (collection_of env identifier)) address w.owners;
        })
  unfolding process_target increment_remote
  process_with_owner_check_unchecked address identifier collection r w named other given also few
        fresh owned =
      let counted = record w {
        counters = (env.counters.increment (thumbnails_key env identifier) w.counters).1;
      } in
      let within : ltb 2 ((env.counters.increment (thumbnails_key env identifier) w.counters).0)
          ≡ false =
        ground (arith, laws.incremented (thumbnails_key env identifier) w.counters) in
      let target : target_of env r ≡ some identifier =
        ap (λ o. elim o as (λ x. Option String) [ some i ↦ some i | none ↦ r.collection ]) named in
      process_with_owner_check-target env laws address identifier r w target given
      ∙ ap
          (λ b.
            (if b then throw Error.already_generated else process_as_owner env address identifier r)
              counted)
          within
      ∙ as_owner address identifier r counted fresh owned
      ∙ process-collection collection r _ other also
