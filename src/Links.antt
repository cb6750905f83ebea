-- ===== src/Links.antt =====
-- src/thread.c, the order of the PROFINET traffic classes: find_next_pn_thread and link_pn_threads.
-- A pointer into `pn_threads` is the thread that it points to.
pub mod Order
use rtc_testbench.Base.{ℕ, zero, suc, Bool, true, false, Option, none, some, ◌==◌, if◌then◌else◌}
use rtc_testbench.Types.{
  FrameType, tsn_high, tsn_low, rtc, rta, dcp, lldp, udp_high, udp_low, generic_l2, AppConfig,
  is_tc_active,
}

-- enum pn_thread_type, without its count
pub data PnThread : Type 0 where
  tsn_high_thread tsn_low_thread rtc_thread rta_thread dcp_thread lldp_thread udp_high_thread
        udp_low_thread :
      PnThread

-- The value that C gives the enumerator.
unfoldable pub thread_index : PnThread → ℕ
thread_index tsn_high_thread = 0
thread_index tsn_low_thread = 1
thread_index rtc_thread = 2
thread_index rta_thread = 3
thread_index dcp_thread = 4
thread_index lldp_thread = 5
thread_index udp_high_thread = 6
thread_index udp_low_thread = 7

unfoldable pub same_thread : PnThread → PnThread → Bool
same_thread a b = thread_index a == thread_index b

-- The switch of find_next_pn_thread, one function per label: a label falls through to the next.
unfoldable pub after_udp_high : AppConfig → Option PnThread
after_udp_high app = if is_tc_active app udp_low then some udp_low_thread else none

unfoldable pub after_lldp : AppConfig → Option PnThread
after_lldp app = if is_tc_active app udp_high then some udp_high_thread else after_udp_high app

unfoldable pub after_dcp : AppConfig → Option PnThread
after_dcp app = if is_tc_active app lldp then some lldp_thread else after_lldp app

unfoldable pub after_rta : AppConfig → Option PnThread
after_rta app = if is_tc_active app dcp then some dcp_thread else after_dcp app

unfoldable pub after_rtc : AppConfig → Option PnThread
after_rtc app = if is_tc_active app rta then some rta_thread else after_rta app

unfoldable pub after_tsn_low : AppConfig → Option PnThread
after_tsn_low app = if is_tc_active app rtc then some rtc_thread else after_rtc app

unfoldable pub after_tsn_high : AppConfig → Option PnThread
after_tsn_high app = if is_tc_active app tsn_low then some tsn_low_thread else after_tsn_low app

-- find_next_pn_thread
unfoldable pub find_next_pn_thread : AppConfig → PnThread → Option PnThread
find_next_pn_thread app tsn_high_thread = after_tsn_high app
find_next_pn_thread app tsn_low_thread = after_tsn_low app
find_next_pn_thread app rtc_thread = after_rtc app
find_next_pn_thread app rta_thread = after_rta app
find_next_pn_thread app dcp_thread = after_dcp app
find_next_pn_thread app lldp_thread = after_lldp app
find_next_pn_thread app udp_high_thread = after_udp_high app
find_next_pn_thread app udp_low_thread = none

-- The members of `struct thread_context` that order the threads.
pub record PnLinks : Type 0 where
  pub next : PnThread → Option PnThread
  pub is_first : PnThread → Bool
  pub is_last : PnThread → Bool

-- `while (t) { p = t; t = t->next; }`: the last `p`, or `none` if the fuel runs out
unfoldable pub find_last : ℕ → (PnThread → Option PnThread) → PnThread → Option PnThread
find_last zero next t = none
find_last (suc n) next t = elim (next t) [ some u ↦ find_last n next u | none ↦ some t ]

-- The end of link_pn_threads, with `first` as the first thread.
unfoldable pub mark : ℕ → PnLinks → PnThread → Option PnLinks
mark fuel links first = elim (find_last fuel links.next first) [
  | some p ↦ some (record links {
    is_first = λ t. if same_thread t first then true else links.is_first t;
    is_last = λ t. if same_thread t p then true else links.is_last t;
  })
  | none ↦ none
]

-- What link_pn_threads returns: 0 with the links as they then are, or -EINVAL.
pub data Linked : Type 0 where
  linked : PnLinks → Linked
  invalid : PnLinks → Linked

-- link_pn_threads; `none` if the fuel of the search for the last thread runs out
unfoldable pub link_pn_threads : ℕ → AppConfig → PnLinks → Option Linked
link_pn_threads fuel app old =
    let links = record old { next = find_next_pn_thread app } in
    let finish : Option PnLinks → Option Linked =
      λ r. elim r [ some l ↦ some (linked l) | none ↦ none ] in
    if is_tc_active app tsn_high
    then finish (mark fuel links tsn_high_thread)
    else if is_tc_active app rtc
    then finish (mark fuel links rtc_thread)
    else if is_tc_active app generic_l2
    then some (linked links)
    else some (invalid links)
