-- ===== src/Pages/Watch.antt =====
-- The script of `setup_page` in firmware/targets/esp32s3/main/main.c: a submission of credentials,
-- and the polls of the status that show what became of it. A value that is missing in the answer is
-- `undefined` there and `none` here.
use dragon_bench.Common.{
  ℕ, ◌+◌, ◌-◌, ◌%◌, ◌^◌, Bool, true, false, not, ◌&&◌, Option, none, some, List, [], ◌∷◌, ◌++◌,
  Text, codes, utf8, text_eq, is_empty, print_u64, ltb, ◌==◌, if◌then◌else◌,
}
use dragon_bench.Json.{Json, str, num, Members, no_member, member}

-- What stands where nothing is known.
abbrev pub dash : Text
dash = utf8 "—"

-- The member of an object under a name.
unfoldable pub lookup : Text → Members → Option Json
lookup name no_member = none
lookup name (member key value rest) =
    let found = lookup name rest in if text_eq key name then some value else found

abbrev pub text_of : Option Json → Option Text
text_of (some (str s)) = some s
text_of _ = none

abbrev pub number_of : Option Json → Option ℕ
number_of (some (num n)) = some n
number_of _ = none

-- What render reads of the object under "network".
pub record Network : Type 0 where
  pub sta_state : Option Text
  pub sta_ssid : Option Text
  pub sta_ip : Option Text
  pub sta_last_disconnect_reason : Option ℕ
  pub sta_config_request_id : Option ℕ
  pub sta_config_result : Option Text

unfoldable pub read_network : Members → Network
unfolding lookup
read_network n = record {
  sta_state = text_of (lookup (codes "sta_state") n);
  sta_ssid = text_of (lookup (codes "sta_ssid") n);
  sta_ip = text_of (lookup (codes "sta_ip") n);
  sta_last_disconnect_reason = number_of (lookup (codes "sta_last_disconnect_reason") n);
  sta_config_request_id = number_of (lookup (codes "sta_config_request_id") n);
  sta_config_result = text_of (lookup (codes "sta_config_result") n);
}

-- A submission that waits for its outcome.
pub record Pending : Type 0 where
  pub id : ℕ
  pub ssid : Text

-- The page's variable `pending`, and the texts that it shows.
pub record Page : Type 0 where
  pub pending : Option Pending
  pub message : Text
  pub state : Text
  pub current : Text
  pub ip : Text
  pub reason : Text

-- The text that show writes.
unfoldable pub shown : Option Text → Text
shown none = dash
shown (some s) = if is_empty s then dash else s

-- The table REASONS, and what stands for a code that it does not have.
unfoldable pub reason_word : ℕ → Text
reason_word code =
    if code == 2
    then codes "authentication timed out"
    else (if code == 4
        then codes "association timed out"
        else (if code == 8
            then codes "left to reconfigure"
            else (if code == 15
                then codes "handshake timed out (wrong password?)"
                else (if code == 201
                    then codes "network not found"
                    else (if code == 202
                        then codes "authentication failed"
                        else (if code == 204
                            then codes "handshake timed out (wrong password?)"
                            else (if code == 210
                                then codes "no network with compatible security"
                                else (if code == 211
                                    then codes "network security below WPA2"
                                    else codes "reason"))))))))

-- reason
unfoldable pub reason_text : Option ℕ → Text
unfolding reason_word
reason_text none = dash
reason_text (some code) =
    if code == 0 then dash else reason_word code ++ (codes " (" ++ (print_u64 code ++ codes ")"))

-- requestIdNewer: the difference as an unsigned number of 32 bits, from any two numbers.
unfoldable pub request_id_newer : ℕ → ℕ → Bool
request_id_newer candidate reference =
    let distance = (candidate % 2 ^ 32 + 2 ^ 32 - reference % 2 ^ 32) % 2 ^ 32 in
    not (distance == 0) && ltb distance 0x8000_0000

-- ===, where undefined is no text and no number.
abbrev pub is_text : Option Text → Text → Bool
is_text none t = false
is_text (some s) t = text_eq s t

abbrev pub is_number : Option ℕ → ℕ → Bool
is_number none n = false
is_number (some m) n = m == n

-- requestIdNewer(n.sta_config_request_id, …), which is false of undefined.
abbrev pub newer_than : Option ℕ → ℕ → Bool
newer_than none reference = false
newer_than (some candidate) reference = request_id_newer candidate reference

abbrev pub replaced_message : Text
replaced_message = codes "A newer submission replaced this one."

abbrev pub failed_message : Text
failed_message = codes "Could not apply these settings; the previous network is still in use."

-- A text in a sentence, where undefined has its name.
abbrev pub spelled : Option Text → Text
spelled none = codes "undefined"
spelled (some s) = s

abbrev pub connected_message : Text → Option Text → Text
connected_message ssid ip =
    codes "Connected to " ++ (ssid ++ (codes " at " ++ (spelled ip ++ codes ".")))

abbrev pub retrying_message : Text → Option ℕ → Text
retrying_message ssid code =
    codes "Not connected to "
    ++ (ssid ++ (codes " yet: " ++ (reason_text code ++ codes ". Retrying.")))

-- A reason that is worth a message: neither undefined, nor 0, nor 8.
abbrev pub notable : Option ℕ → Bool
notable none = false
notable (some code) = not (code == 0) && not (code == 8)

-- The lines of render that are about the outcome, where a submission waits.
unfoldable pub settle : Network → Pending → Page → Page
settle n p page =
    if not (is_number n.sta_config_request_id p.id)
    then (if newer_than n.sta_config_request_id p.id
        then record page { message = replaced_message; pending = none }
        else page)
    else (if is_text n.sta_config_result (codes "failed")
        then record page { message = failed_message; pending = none }
        else (if is_text n.sta_state (codes "connected") && is_text n.sta_ssid p.ssid
            then record page { message = connected_message p.ssid n.sta_ip; pending = none }
            else (if notable n.sta_last_disconnect_reason
                then record page { message = retrying_message p.ssid n.sta_last_disconnect_reason }
                else page)))

abbrev pub settle_waiting : Network → Option Pending → Page → Page
settle_waiting n none page = page
settle_waiting n (some p) page = settle n p page

-- The lines of render that show the station.
unfoldable pub show_station : Network → Page → Page
unfolding shown reason_text
show_station n page =
    let connected = is_text n.sta_state (codes "connected") in
    record page {
      state = shown n.sta_state;
      current = shown n.sta_ssid;
      ip = if connected then shown n.sta_ip else dash;
      reason = if connected then dash else reason_text n.sta_last_disconnect_reason;
    }

-- render
unfoldable pub render : Network → Page → Page
unfolding show_station settle
render n page = settle_waiting n page.pending (show_station n page)

-- What comes of a submission: the answer of network_sta_post with its number and name, one with an
-- error, or none.
pub data Answer : Type 0 where
  accepted : ℕ → Text → Answer
  rejected : Option Text → Answer
  unanswered : Answer

abbrev pub accepted_as : Option ℕ → Option Text → Option Answer
accepted_as (some id) (some ssid) = some (accepted id ssid)
accepted_as _ _ = none

-- What the page takes from an answer with a status in the 200s or with another; `none` for one in the
-- 200s that lacks the number or the name, which the page would take as undefined.
unfoldable pub read_answer : Bool → Members → Option Answer
unfolding lookup
read_answer true answer =
    accepted_as (number_of (lookup (codes "request_id") answer))
      (text_of (lookup (codes "ssid") answer))
read_answer false answer = some (rejected (text_of (lookup (codes "error") answer)))

abbrev pub error_word : Option Text → Text
error_word none = codes "unknown error"
error_word (some e) = if is_empty e then codes "unknown error" else e

-- The callbacks of the submission.
unfoldable pub submitted : Answer → Page → Page
submitted (accepted id ssid) page = record page {
  pending = some (record { id = id; ssid = ssid });
  message = codes "Connecting to " ++ (ssid ++ utf8 "…");
}
submitted (rejected e) page = record page {
  pending = none;
  message = codes "Rejected: " ++ error_word e;
}
submitted unanswered page = record page {
  pending = none;
  message =
      codes
        "No response to the request. If the access point dropped, reconnect to it and check the status below.";
}

-- The paths that the page posts a submission to, polls, and links to.
abbrev pub submit_uri : Text
submit_uri = codes "/api/v1/network/sta"

abbrev pub status_uri : Text
status_uri = codes "/api/v1/status"

abbrev pub dashboard_uri : Text
dashboard_uri = codes "/"

-- The polls after a submission, oldest first.
abbrev pub watch : List Network → Page → Page
watch [] page = page
watch (n ∷ ns) page = watch ns (render n page)
