-- ===== src/Abr/Stats.antt =====
-- frontend/src/lib/abr/abr.ts: the statistics that a tick takes from a report.
use ccn.Prelude.{
  string_key, Bool, false, not, ◌&&◌, Option, none, some, String, List, [], ◌∷◌, if◌then◌else◌,
  ◌==◌, JsMap, map_get, map_set,
}
use ccn.Number.{Number}

-- One entry of a report; a field that is missing is `none`.
pub record RtcStat (N : Number) : Type 0 where
  pub type : String
  pub id : String
  pub kind : Option String
  pub is_remote : Bool
  pub bytes_sent : Option N.Num
  pub packets_sent : Option N.Num
  pub packets_lost : Option N.Num
  pub selected_pair : Option String
  pub nominated : Bool
  pub state : Option String
  pub available_bitrate : Option N.Num

pub record Sample (N : Number) : Type 0 where
  pub bytes_sent : N.Num
  pub packets_sent : N.Num
  pub packets_lost : N.Num
  pub t : N.Num
  pub available_bitrate : Option N.Num

abbrev pub is_text : Option String → String → Bool
is_text none s = false
is_text (some t) s = t == s

-- The sums of the loop of `collect` over the report.
pub record Totals (N : Number) : Type 0 where
  pub selected : Option String
  pub pairs : JsMap String (RtcStat N)
  pub bytes : N.Num
  pub sent : N.Num
  pub lost : N.Num

module _ (N : Number) where
  abbrev pub or_zero : Option N.Num → N.Num
  or_zero none = N.of_nat 0
  or_zero (some a) = a

  abbrev pub gather_one : RtcStat N → Totals N → Totals N
  gather_one s t =
      if s.type == "transport"
      then record t { selected = s.selected_pair }
      else if s.type == "candidate-pair"
      then record t { pairs = map_set s.id s t.pairs }
      else if s.type == "outbound-rtp"
      then (if is_text s.kind "video" && not s.is_remote
          then record t {
            bytes = N.plus t.bytes (or_zero s.bytes_sent);
            sent = N.plus t.sent (or_zero s.packets_sent);
          }
          else t)
      else if s.type == "remote-inbound-rtp"
      then (if is_text s.kind "video"
          then record t { lost = N.plus t.lost (or_zero s.packets_lost) }
          else t)
      else t

  unfoldable pub gather : List (RtcStat N) → Totals N → Totals N
  gather [] t = t
  gather (s ∷ ss) t = gather ss (gather_one s t)

  abbrev pub nominated_pair : JsMap String (RtcStat N) → Option (RtcStat N)
  nominated_pair [] = none
  nominated_pair ((id, p) ∷ ps) =
      if p.nominated && is_text p.state "succeeded" then some p else nominated_pair ps

  -- An empty identifier is falsy.
  abbrev pub selected_pair : Option String → JsMap String (RtcStat N) → Option (RtcStat N)
  selected_pair none ps = none
  selected_pair (some id) ps = if id == "" then none else map_get id ps

  abbrev pub pair_of : Totals N → Option (RtcStat N)
  pair_of t = elim (selected_pair t.selected t.pairs) [
    | none ↦ nominated_pair t.pairs
    | some p ↦ some p
  ]

  abbrev pub bitrate_of : Option (RtcStat N) → Option N.Num
  bitrate_of none = none
  bitrate_of (some p) = p.available_bitrate

  unfoldable pub collect : N.Num → List (RtcStat N) → Sample N
  unfolding gather
  collect now report =
      let zero_totals : Totals N = record {
        selected = none;
        pairs = [];
        bytes = N.of_nat 0;
        sent = N.of_nat 0;
        lost = N.of_nat 0;
      } in
      let t = gather report zero_totals in
      record {
        bytes_sent = t.bytes;
        packets_sent = t.sent;
        packets_lost = t.lost;
        t = now;
        available_bitrate = bitrate_of (pair_of t);
      }
