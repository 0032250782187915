-- ===== src/Server/Packets.antt =====
-- What one packet after the first leaves as it is, and that its handler ends.
use life_stream_go_mqtt_brok.Database.Tree.Match.Ends.{match_topic-Concludes}
use life_stream_go_mqtt_brok.Database.Tree.Match.{match_topic}
use life_stream_go_mqtt_brok.Handlers.Subscribe.Session.{save_session-heap}
use life_stream_go_mqtt_brok.Database.Session.{SessionData}
use life_stream_go_mqtt_brok.Database.Types.{Subscription}
use life_stream_go_mqtt_brok.Errors.{Error}
use life_stream_go_mqtt_brok.Prelude.Result.{
  Result, Returns, Concludes, Returns-bind, ok, Returns-weaken, err, panic, stuck,
}
use life_stream_go_mqtt_brok.Packet.Publish.{PublishPacketPayloads}
use life_stream_go_mqtt_brok.Server.Keeps.{SameIds, set_session-SameIds, deliver-keeps}
use life_stream_go_mqtt_brok.Prelude.{
  Bool, ℕ, ◌≡◌, ◌∙◌, List, Option, ap, false, Bool-cases, ◌==◌, inl, refl, inr, true,
}
use life_stream_go_mqtt_brok.Handlers.Publish.{
  Hub, handle_qos0_publish, handle_publish_packet, handle_qos1_publish, handle_qos2_publish,
  remembered_by, matched, deliver,
}
use life_stream_go_mqtt_brok.Connection.{NetServices, NetLaws}
use life_stream_go_mqtt_brok.Database.Tree.{TopicServices, Tree}
use life_stream_go_mqtt_brok.Database.Services.{Services}

module _ (sv : Services) (tv : TopicServices) (nv : NetServices) (l : NetLaws nv) where
  -- The same connections, and the same client identifier in each session.
  abbrev pub Kept : Hub sv tv nv → Hub sv tv nv → Type 0
  Kept h h' =
      (h'.manager.connections ≡ h.manager.connections)
      × SameIds sv h.broker.store.heap h'.broker.store.heap

  pub Kept-trans : (h h1 h2 : Hub sv tv nv) → Kept h h1 → Kept h1 h2 → Kept h h2
  Kept-trans h h1 h2 a b = (b.0 ∙ a.0, λ r. b.1 r ∙ a.1 r)

  matched-Kept :
      (allocates : Bool) (pick : ℕ → ℕ) (topic : List ℕ) (content : Option (List ℕ))
      (h : Hub sv tv nv) (r : Result Error (List Subscription × Tree tv))
      → Concludes (λ _. Unit) r
      → Returns (Kept h) (matched sv tv nv allocates pick topic content h r)
  matched-Kept allocates pick topic content h (ok (subs, tree)) u =
      Returns-bind _ (Kept h) (deliver nv allocates pick topic content subs (h.ids, h.manager)) _
        (deliver-keeps nv l allocates pick topic content subs (h.ids, h.manager))
        λ h' same. (same, λ r. refl)
  matched-Kept allocates pick topic content h (err e) u = (refl, λ r. refl)
  matched-Kept allocates pick topic content h panic u = tt
  matched-Kept allocates pick topic content h stuck u = absurd u

  remembered_by-Kept :
      (ref : ℕ) (topic : List ℕ) (payload : PublishPacketPayloads) (h : Hub sv tv nv)
      → Kept h (remembered_by sv tv nv ref topic payload h)
  remembered_by-Kept ref topic payload h = (
    refl,
    λ r.
        ap (λ (x : ℕ → SessionData). (x r).client_id) (save_session-heap sv tv ref _)
        ∙ set_session-SameIds sv tv ref _ h.broker refl r,
  )

  pub handle_qos0_publish-Kept :
      (pick : ℕ → ℕ) (topic : List ℕ) (payload : PublishPacketPayloads) (h : Hub sv tv nv)
      → Returns (Kept h) (handle_qos0_publish sv tv nv pick topic payload h)
  unfolding handle_qos0_publish
  handle_qos0_publish-Kept pick topic payload h =
      matched-Kept false pick topic payload.payload h _
        (match_topic-Concludes tv topic h.broker.tree)

  acknowledged-Kept :
      (pick : ℕ → ℕ) (topic : List ℕ) (payload : PublishPacketPayloads) (ref : ℕ) (h : Hub sv tv nv)
      → (let h' = remembered_by sv tv nv ref topic payload h in
          Returns (Kept h) (
            matched sv tv nv true pick topic payload.payload h'
              (match_topic tv topic h'.broker.tree)))
  acknowledged-Kept pick topic payload ref h =
      let h' = remembered_by sv tv nv ref topic payload h in
      Returns-weaken (Kept h') (Kept h) _
        (matched-Kept true pick topic payload.payload h' _
          (match_topic-Concludes tv topic h'.broker.tree))
        λ h2 k. Kept-trans h h' h2 (remembered_by-Kept ref topic payload h) k

  pub handle_publish_packet-Kept :
      (pick : ℕ → ℕ) (payload : PublishPacketPayloads) (ref : ℕ) (h : Hub sv tv nv)
      → Returns
          (λ (r : Option (List ℕ) × Hub sv tv nv). Kept h r.1)
          (handle_publish_packet sv tv nv pick payload ref h)
  unfolding handle_publish_packet handle_qos1_publish handle_qos2_publish
  handle_publish_packet-Kept pick payload ref h =
      let topic = payload.topic_name.payload in
      elim (Bool-cases (payload.packet_flag.qos == 0)) [
        | inl qos0 ↦ rw qos0 (
            Returns-bind (Kept h) _ (handle_qos0_publish sv tv nv pick topic payload h) _
              (handle_qos0_publish-Kept pick topic payload h) λ h' k. k)
        | inr not0 ↦ rw not0 (elim (Bool-cases (payload.packet_flag.qos == 1)) [
          | inl qos1 ↦
              rw qos1
                (Returns-bind (Kept h) _ _ _ (acknowledged-Kept pick topic payload ref h) λ h' k. k)
          | inr not1 ↦ rw not1 (elim (Bool-cases (payload.packet_flag.qos == 2)) [
            | inl qos2 ↦
                rw qos2 (
                  Returns-bind (Kept h) _ _ _ (acknowledged-Kept pick topic payload ref h)
                    λ h' k. k)
            | inr not2 ↦ rw not2 (refl, λ r. refl)
          ])
        ])
      ]
