-- ===== src/Engine/Cmd.antt =====
-- `enum CommandBits` of core/filter_engine.h.
use Prim.Native.Nat.{ℕ, ◌^◌, bit_or}

abbrev pub select : ℕ
select = 2 ^ 0

abbrev pub insert : ℕ
insert = 2 ^ 1

abbrev pub update : ℕ
update = 2 ^ 2

abbrev pub delete : ℕ
delete = 2 ^ 3

abbrev pub replace : ℕ
replace = 2 ^ 4

abbrev pub load : ℕ
load = 2 ^ 5

abbrev pub call : ℕ
call = 2 ^ 6

abbrev pub create : ℕ
create = 2 ^ 7

abbrev pub alter : ℕ
alter = 2 ^ 8

abbrev pub drop : ℕ
drop = 2 ^ 9

abbrev pub truncate : ℕ
truncate = 2 ^ 10

abbrev pub rename : ℕ
rename = 2 ^ 11

abbrev pub other : ℕ
other = 2 ^ 12

abbrev pub commit : ℕ
commit = 2 ^ 13

abbrev pub rollback : ℕ
rollback = 2 ^ 14

abbrev pub begin : ℕ
begin = 2 ^ 15

abbrev pub savepoint : ℕ
savepoint = 2 ^ 16

abbrev pub dml : ℕ
dml = bit_or (bit_or (bit_or (bit_or insert update) delete) replace) load

abbrev pub ddl : ℕ
ddl = bit_or (bit_or (bit_or (bit_or create alter) drop) truncate) rename

abbrev pub tcl : ℕ
tcl = bit_or (bit_or (bit_or commit rollback) begin) savepoint

abbrev pub all : ℕ
all = 0xFFFFFFFF
