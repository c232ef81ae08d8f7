-- ===== src/Gem/Service/Events/Numbered.antt =====
-- The calls that the service gets, one after the other on the I/O thread, and the events among what
-- it posts (src/secsgem/gem/gem_service.cpp).
use semiconductor_metrology.Base.{
  ℕ, ◌+◌, ◌%◌, ◌^◌, Bool, true, false, ◌&&◌, ◌==◌, List, [], ◌∷◌, ◌++◌, Option, none, some, ◌≡◌,
  refl, sym, ap, ◌∙◌, Result, ok, err, ◌>>=◌, if◌then◌else◌, append-nil, append_assoc, Text,
}
use semiconductor_metrology.Secs2.Item.{Item, array, cons, u4}
use semiconductor_metrology.Secs2.Message.{Message}
use semiconductor_metrology.Hsms.Connection.{ConnectionState, selected, not_selected, not_connected}
use semiconductor_metrology.Hsms.Frame.{Header}
use semiconductor_metrology.Hsms.Session.{Delivery}
use semiconductor_metrology.Core.Controller.{ControlMode, offline, online_local, online_remote}
use semiconductor_metrology.Core.Process.{ProcessState}
use semiconductor_metrology.Core.MachineApi.{Machine, WaferResultReady}
use semiconductor_metrology.Gem.Messages.{Report, from_list}
use semiconductor_metrology.Gem.Service.{
  GemService, Surroundings, Post, post_request, post_reply, CommState, communicating,
  not_communicating, send_request, send_event, send_alarm, send_s9, on_sent, find_request,
  erase_request,
}
use semiconductor_metrology.Gem.Service.Requests.{on_data}
use semiconductor_metrology.Gem.Service.Requests.Answered.{Answers, Due, Returns, on_data-Answers}
use semiconductor_metrology.Gem.Service.Events.{
  on_process_state_changed, on_control_state_changed, on_scan_started, on_result, on_run_aborted,
  on_alarm, on_session_state, on_transaction_timeout, result_report, states_report,
}
use semiconductor_metrology.Gem.Identifiers.{
  ceid_control_state_changed, ceid_wafer_scan_complete, ceid_wafer_out_of_spec,
}

pub data Call : Type 0 where
  process_state_call : ProcessState → Call
  control_state_call : ControlMode → Call
  scan_started_call : Text → ℕ → Call
  result_call : WaferResultReady → Call
  run_aborted_call : Call
  alarm_call : Bool → ℕ → Text → Call
  session_state_call : ConnectionState → Call
  timeout_call : ℕ → Call
  sent_call : Message → ℕ → Call
  data_call : Delivery → Call
  machine_call : Machine → Call

-- Each call, the last being a change of the machine that the service does not make.
unfoldable pub perform : Surroundings → Call → GemService → Result GemService
perform w (process_state_call to) g = ok (on_process_state_changed to g)
perform w (control_state_call to) g = ok (on_control_state_changed to g)
perform w (scan_started_call wafer_id slot) g = ok (on_scan_started wafer_id slot g)
perform w (result_call r) g = ok (on_result w r g)
perform w run_aborted_call g = ok (on_run_aborted g)
perform w (alarm_call set alid text) g = ok (on_alarm set alid text g)
perform w (session_state_call s) g = ok (on_session_state s g)
perform w (timeout_call system) g = ok (on_transaction_timeout system g)
perform w (sent_call message system) g = ok (on_sent message system g)
perform w (data_call d) g = on_data w d g
perform w (machine_call m) g = ok (record g { api = m })

unfoldable pub run : Surroundings → List Call → GemService → Result GemService
unfolding perform
run w [] g = ok g
run w (c ∷ cs) g = perform w c g >>= λ g'. run w cs g'

-- The DATAID of a post, where it is an S6F11.
unfoldable pub first_u4 : Option Item → Option ℕ
first_u4 (some (Item.list (cons (array u4 (v ∷ [])) rest))) = some v
first_u4 _ = none

unfoldable pub dataid_of : Post → Option ℕ
unfolding first_u4
dataid_of (post_request m) = if m.stream == 6 && m.function == 11 then first_u4 m.body else none
dataid_of (post_reply system m) = none

-- The DATAIDs among the posts count up from `n`, with 32 bits, and `k` is the one after them.
pub At : Option ℕ → ℕ → (ℕ → Type 0) → Type 0
At none n Rest = Rest n
At (some d) n Rest = (d ≡ n) × Rest ((n + 1) % 2 ^ 32)

pub Numbered : ℕ → List Post → ℕ → Type 0
unfolding At
Numbered n [] k = n ≡ k
Numbered n (p ∷ ps) k = At (dataid_of p) n (λ m. Numbered m ps k)

-- A result of the service `g`, whose new posts are numbered from its DATAID to that of the result.
pub Counts : GemService → Result GemService → Type 0
Counts g (err e) = ⊥
Counts g (ok g') =
    (news : List Post) × (g'.posts ≡ g.posts ++ news) × Numbered g.next_dataid news g'.next_dataid

silent :
    (g g' : GemService) → g'.posts ≡ g.posts → g'.next_dataid ≡ g.next_dataid → Counts g (ok g')
unfolding Counts Numbered
silent g g' h k = ([], h ∙ sym (append-nil g.posts), sym k)

At-map : (o : Option ℕ) (n : ℕ) (P Q : ℕ → Type 0) → ((m : ℕ) → P m → Q m) → At o n P → At o n Q
unfolding At
At-map none n P Q f h = f n h
At-map (some d) n P Q f h = (h.0, f ((n + 1) % 2 ^ 32) h.1)

Numbered-append :
    (n k l : ℕ) (ps qs : List Post) → Numbered n ps k → Numbered k qs l → Numbered n (ps ++ qs) l
unfolding Numbered
Numbered-append n k l [] qs h i = rw (h) i
Numbered-append n k l (p ∷ ps) qs h i =
    At-map (dataid_of p) n _ _ (λ m h. Numbered-append m k l ps qs h i) h

then-Counts :
    (g : GemService) (r : Result GemService) (next : GemService → Result GemService)
    → Counts g r
    → ((g' : GemService) → Counts g' (next g'))
    → Counts g (r >>= λ g'. next g')
unfolding Counts
then-Counts g (err e) next h k = elim h [ ]
then-Counts g (ok g') next h k = joined (next g') (k g')
  where
    joined : (r : Result GemService) → Counts g' r → Counts g r
    joined (err e) h2 = elim h2 [ ]
    joined (ok g2) (news2, p2, n2) =
        let (news, p, n) = h in
        (
          news ++ news2,
          p2 ∙ ap (λ ps. ps ++ news2) p ∙ append_assoc g.posts news news2,
          Numbered-append _ _ _ news news2 n n2,
        )

event-Counts :
    (ceid : ℕ) (reports : List Report) (g : GemService) → Counts g (ok (send_event ceid reports g))
unfolding Counts Numbered send_event send_request dataid_of first_u4 from_list
event-Counts ceid reports g = by_comm g.comm
  where
    by_comm :
        (c : CommState)
        → Counts (record g { comm = c }) (ok (send_event ceid reports (record g { comm = c })))
    by_comm not_communicating = ([], sym (append-nil g.posts), refl)
    by_comm communicating = (_, refl, (refl, refl))

alarm-Counts :
    (alcd alid : ℕ) (text : Text) (g : GemService) → Counts g (ok (send_alarm alcd alid text g))
unfolding Counts Numbered send_alarm send_request dataid_of
alarm-Counts alcd alid text g = by_comm g.comm
  where
    by_comm :
        (c : CommState)
        → Counts (record g { comm = c }) (ok (send_alarm alcd alid text (record g { comm = c })))
    by_comm not_communicating = ([], sym (append-nil g.posts), refl)
    by_comm communicating = (_, refl, refl)

Due-Numbered : (d : Delivery) (news : List Post) (n : ℕ) → Due d news → Numbered n news n
unfolding Due Answers Numbered dataid_of
Due-Numbered d news n h = by_reply d.reply_to h
  where
    by_reply : (o : Option ℕ) → Due (record d { reply_to = o }) news → Numbered n news n
    by_reply (some system) e = rw (e) refl
    by_reply none e = by_news news e
      where
        by_news : (news : List Post) → Answers d.frame news → Numbered n news n
        by_news [] e = refl
        by_news (post_reply system m ∷ []) e = refl
        by_news (post_request m ∷ []) (f, e) = rw (e) refl
        by_news (p ∷ q ∷ ps) e = elim e [ ]

s9-Counts : (f : ℕ) (h : Header) (g : GemService) → Counts g (ok (send_s9 f h g))
unfolding Counts Numbered send_s9 send_request dataid_of
s9-Counts f h g = (_, refl, refl)

data-Counts : (w : Surroundings) (d : Delivery) (g : GemService) → Counts g (on_data w d g)
unfolding Counts Returns
data-Counts w d g =
    let (g', news, r, p, n, due) = on_data-Answers w d g in
    rw (r) (news, p, rw (n) (Due-Numbered d news g.next_dataid due))

result-Counts :
    (w : Surroundings) (r : WaferResultReady) (g : GemService) → Counts g (ok (on_result w r g))
unfolding Counts Numbered on_result
result-Counts w r g =
    then-Counts counted (ok (send_event ceid_wafer_scan_complete (result_report w r) counted))
      (λ g'.
        ok (if r.out_of_spec then send_event ceid_wafer_out_of_spec (result_report w r) g' else g'))
      (event-Counts ceid_wafer_scan_complete (result_report w r) counted)
      (λ g'. second g' r.out_of_spec)
  where
    counted : GemService
    counted = record g { wafers_processed = (g.wafers_processed + 1) % 2 ^ 32 }

    second :
        (g' : GemService) (b : Bool)
        → Counts g'
            (ok (if b then send_event ceid_wafer_out_of_spec (result_report w r) g' else g'))
    second g' true = event-Counts ceid_wafer_out_of_spec (result_report w r) g'
    second g' false = ([], sym (append-nil g'.posts), refl)

session-Counts : (s : ConnectionState) (g : GemService) → Counts g (ok (on_session_state s g))
unfolding on_session_state
session-Counts selected g = silent g _ refl refl
session-Counts not_selected g = silent g _ refl refl
session-Counts not_connected g = silent g _ refl refl

timeout-Counts : (k : ℕ) (g : GemService) → Counts g (ok (on_transaction_timeout k g))
unfolding Counts on_transaction_timeout
timeout-Counts k g = by_request (find_request k g.open_requests)
  where
    by_request :
        (o : Option Header)
        → Counts g (
            ok (elim o [
              | none ↦ g
              | some sent ↦
                  send_s9 9 sent (record g { open_requests = erase_request k g.open_requests })
            ]))
    by_request none = silent g g refl refl
    by_request (some sent) =
        s9-Counts 9 sent (record g { open_requests = erase_request k g.open_requests })

sent-Counts : (m : Message) (k : ℕ) (g : GemService) → Counts g (ok (on_sent m k g))
unfolding Counts Numbered on_sent
sent-Counts m k g = by_bit m.w_bit
  where
    by_bit : (b : Bool) → Counts g (ok (on_sent (record m { w_bit = b }) k g))
    by_bit false = ([], sym (append-nil g.posts), refl)
    by_bit true = ([], sym (append-nil g.posts), refl)

control-Counts : (to : ControlMode) (g : GemService) → Counts g (ok (on_control_state_changed to g))
unfolding Counts on_control_state_changed
control-Counts offline g =
    event-Counts ceid_control_state_changed (states_report offline g.api.controller.state) g
control-Counts online_local g =
    event-Counts ceid_control_state_changed (states_report online_local g.api.controller.state)
      (record g { preferred_online_mode = online_local })
control-Counts online_remote g =
    event-Counts ceid_control_state_changed (states_report online_remote g.api.controller.state)
      (record g { preferred_online_mode = online_remote })

perform-Counts : (w : Surroundings) (c : Call) (g : GemService) → Counts g (perform w c g)
unfolding perform on_process_state_changed on_scan_started on_run_aborted on_alarm
perform-Counts w (process_state_call to) g = search event-Counts
perform-Counts w (control_state_call to) g = control-Counts to g
perform-Counts w (scan_started_call wafer_id slot) g = search event-Counts
perform-Counts w (result_call r) g = result-Counts w r g
perform-Counts w run_aborted_call g = search event-Counts
perform-Counts w (alarm_call set alid text) g = search alarm-Counts
perform-Counts w (session_state_call s) g = session-Counts s g
perform-Counts w (timeout_call system) g = timeout-Counts system g
perform-Counts w (sent_call message system) g = sent-Counts message system g
perform-Counts w (data_call d) g = data-Counts w d g
perform-Counts w (machine_call m) g = silent g (record g { api = m }) refl refl

-- Whatever calls the service gets, in whatever order, it returns from each, and the S6F11 messages
-- that it posts carry the DATAIDs from its own on, one after the other, with 32 bits.
pub run-Counts : (w : Surroundings) (cs : List Call) (g : GemService) → Counts g (run w cs g)
unfolding run
run-Counts w [] g = silent g g refl refl
run-Counts w (c ∷ cs) g =
    then-Counts g (perform w c g) (run w cs) (perform-Counts w c g) (run-Counts w cs)
