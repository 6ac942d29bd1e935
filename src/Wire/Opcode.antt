-- ===== src/Wire/Opcode.antt =====
-- hpfeeds/protocol.py: the constants of the wire format.
use hpfeeds.Prelude.{ℕ, ◌+◌, ◌≤◌, ◌^◌, ◌==◌, arith, if◌then◌else◌}

abbrev pub op_error : ℕ
op_error = 0

abbrev pub op_info : ℕ
op_info = 1

abbrev pub op_auth : ℕ
op_auth = 2

abbrev pub op_publish : ℕ
op_publish = 3

abbrev pub op_subscribe : ℕ
op_subscribe = 4

abbrev pub op_unsubscribe : ℕ
op_unsubscribe = 5

-- MAXBUF = 1024 ** 2
abbrev pub maxbuf : ℕ
maxbuf = 1024 ^ 2

-- SIZES.get(op, MAXBUF)
unfoldable pub sizes : ℕ → ℕ
sizes op =
    if op == op_error
    then 5 + maxbuf
    else if op == op_info
    then 5 + 256 + 20
    else if op == op_auth
    then 5 + 256 + 20
    else if op == op_publish
    then 5 + maxbuf
    else maxbuf

-- No limit passes 5 + MAXBUF.
pub sizes-le : (op : ℕ) → sizes op ≤ 5 + maxbuf
unfolding sizes
sizes-le op = ground arith
