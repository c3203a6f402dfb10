-- ===== src/Queue/Names.antt =====
-- The ids of the events that `DecodeEvent` accepts.
use shortq.Prelude.{
  ◌≡◌, refl, List, [], ◌∷◌, ◌++◌, Text, Bool, true, false, not, ◌&&◌, ◌||◌, ◌==◌, leb, is_empty,
  map,
}
use shortq.Clicks.{is_id}
use shortq.Clicks.Again.{AreNamed}
use shortq.Queue.Decode.{EventPayload, is_positive, is_blank, is_valid, valid_uuid}
use shortq.Queue.Delivery.{PendingDelivery}
use shortq.Queue.Worker.{event_of_pending}

pub named_append :
    (ps : List PendingDelivery) (p : PendingDelivery)
    → not (is_empty p.event.event_id) ≡ true
    → AreNamed (map event_of_pending ps)
    → AreNamed (map event_of_pending (ps ++ p ∷ []))
unfolding AreNamed
named_append [] p named rest = (named, tt)
named_append (q ∷ ps) p named rest = (rest.0, named_append ps p named (rest.1))

and_left : (a b : Bool) → (a && b) ≡ true → a ≡ true
and_left true b h = refl
and_left false b h = h

-- An id that passes `validUUID` is not empty.
named_id : (id : Text) (first : Bool) → (first && valid_uuid id) ≡ true → not (is_empty id) ≡ true
unfolding valid_uuid
named_id [] true passed = cc
named_id [] false passed = cc
named_id (c ∷ id) first passed = refl

taken_id : (id : Text) (first : Bool) → (first && valid_uuid id) ≡ true → is_id id ≡ true
taken_id id false passed = cc
taken_id [] true passed = refl
taken_id (c ∷ id) true passed = passed

-- The test of the version and of the id is one of those that a payload passes.
passed_ids :
    (payload : EventPayload)
    → is_valid payload ≡ true
    → (payload.version == 1 && valid_uuid payload.event_id) ≡ true
unfolding is_valid
passed_ids payload passed =
    let ids = payload.version == 1 && valid_uuid payload.event_id in
    let dated = ids && not (payload.occurred_at == 0) in
    let linked = dated && is_positive payload.link_id in
    let worded =
      linked
      && not (is_blank payload.slug || is_blank payload.method || is_blank payload.route_type) in
    let from = worded && leb 100 payload.status_code in
    and_left ids _
      (and_left dated _ (and_left linked _ (and_left worded _ (and_left from _ passed))))

pub named_payload :
    (payload : EventPayload) → is_valid payload ≡ true → not (is_empty payload.event_id) ≡ true
named_payload payload passed =
    named_id payload.event_id (payload.version == 1) (passed_ids payload passed)

pub taken_payload :
    (payload : EventPayload) → is_valid payload ≡ true → is_id payload.event_id ≡ true
taken_payload payload passed =
    taken_id payload.event_id (payload.version == 1) (passed_ids payload passed)
