-- ===== src/Ring/Queue.antt =====
-- What a ring of bytes promises: a queue that keeps the newest bytes.
use audiowire.Base.{ℕ, ◌-◌, List, [], ◌++◌, length, take, drop}

-- The last `n` elements, or all if there are fewer
abbrev pub last : ℕ → List ℕ → List ℕ
last n xs = drop (length xs - n) xs

-- A queue of at most `cap` bytes drops the oldest to make room.
abbrev pub push : ℕ → List ℕ → List ℕ → List ℕ
push cap items bytes = last cap (items ++ bytes)

-- The oldest `n` bytes, and what stays
abbrev pub pop_front : ℕ → List ℕ → List ℕ × List ℕ
pop_front n items = (take n items, drop n items)

-- The newest `n` bytes; the older ones are dropped.
abbrev pub pop_back : ℕ → List ℕ → List ℕ × List ℕ
pop_back n items = (last n items, [])

-- `n` bytes from the one on that has `offset` bytes from it to the end; the older ones are dropped.
abbrev pub pop_back_from : ℕ → ℕ → List ℕ → List ℕ × List ℕ
pop_back_from n offset items = pop_front n (last offset items)
