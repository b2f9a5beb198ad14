-- ===== src/Http/Request/Users.antt =====
-- `HttpRequest::UserVerify`: the check of a login, and a registration.
-- MySQL is a parameter: what a query reports, the rows that it stores, and whether the pool has a
-- connection. What `UserVerify` does to the pool is modelled there (Pool).
use video_server.Base.{
  ℕ, ◌≡◌, refl, Bool, true, false, not, ◌&&◌, ◌||◌, List, [], ◌∷◌, ◌++◌, arith, take, ◌==◌,
  Bool-cases, inl, inr, if◌then◌else◌,
}
use video_server.Base.Run.{Run, ok, abort, check, ◌>>◌, Ensures, ensures}
use video_server.Base.Text.{codes, same_text}

-- A row: the user's name and password.
abbrev pub Row : Type 0
Row = List ℕ × List ℕ

pub record Mysql : Type 1 where
  pub Database : Type 0
  -- `GetConn` returns a connection that is not null.
  pub connects : Database → Bool
  -- `mysql_query`: true is an error.
  pub query : List ℕ → Database → Bool × Database
  -- `mysql_store_result` and `mysql_fetch_row`, until there is no row left
  pub rows : Database → List Row

-- `c_str()` as `%s` prints it: up to the first zero byte.
abbrev pub c_str : List ℕ → List ℕ
c_str [] = []
c_str (c ∷ s) = if c == 0 then [] else c ∷ c_str s

-- `snprintf(order, 256, …)`
abbrev pub order_text : List ℕ → List ℕ
order_text s = take 255 s

unfoldable pub select_order : List ℕ → List ℕ
select_order name = order_text (
    codes "SELECT username, password FROM user WHERE username='"
    ++ (c_str name ++ codes "' LIMIT 1"))

unfoldable pub insert_order : List ℕ → List ℕ → List ℕ
insert_order name pwd = order_text (
    codes "INSERT INTO user(username, password) VALUES('"
    ++ (c_str name ++ (codes "','" ++ (c_str pwd ++ codes "')"))))

-- The loop over the rows, from the flag on.
pub row_loop : List ℕ → Bool → List Row → Bool → Bool
row_loop pwd is_login [] flag = flag
row_loop pwd is_login (row ∷ rest) flag =
    row_loop pwd is_login rest (if is_login then same_text pwd row.1 else false)

module _ (sql : Mysql) where
  open sql use {Database, connects, query, rows}

  -- What follows the assertion. The outcome of the second query goes to `flag`, which is then set to true
  -- all the same.
  pub verdict : List ℕ → List ℕ → Bool → Database → Bool × Database
  verdict name pwd is_login db =
      let (error, db1) = query (select_order name) db in
      let flag = row_loop pwd is_login (rows db1) (not is_login) in
      let (insert_error, db2) = query (insert_order name pwd) db1 in
      if error then (false, db1) else if not is_login && flag then (true, db2) else (flag, db1)

  -- `UserVerify`; `assert(sql)` is before the first query.
  pub user_verify : List ℕ → List ℕ → Bool → Database → Run (Bool × Database)
  user_verify name pwd is_login db =
      if same_text name [] || same_text pwd []
      then ok (false, db)
      else check (connects db) >> ok (verdict name pwd is_login db)

  -- With a connection for every call, `UserVerify` returns.
  pub user_verify-Ensures :
      ((db : Database) → connects db ≡ true)
      → (name pwd : List ℕ) (is_login : Bool) (db : Database)
      → Ensures (λ p. Unit {0}) (user_verify name pwd is_login db)
  unfolding user_verify
  user_verify-Ensures connected name pwd is_login db =
      elim (Bool-cases (same_text name [] || same_text pwd [])) [
        | inl empty ↦ rw empty (ensures tt)
        | inr filled ↦ rw (filled, connected db) (ensures tt)
      ]

  -- What a login or registration comes to, given the rows of the first query: a login passes if the last
  -- row has the password, and a registration if there is none.
  abbrev pub passes : List ℕ → Bool → List Row → Bool
  passes pwd is_login [] = not is_login
  passes pwd is_login (row ∷ []) = is_login && same_text pwd row.1
  passes pwd is_login (row ∷ next ∷ rest) = passes pwd is_login (next ∷ rest)

  row_loop-filled :
      (pwd : List ℕ) (is_login : Bool) (row : Row) (rest : List Row) (flag : Bool)
      → row_loop pwd is_login (row ∷ rest) flag ≡ passes pwd is_login (row ∷ rest)
  unfolding row_loop
  row_loop-filled pwd is_login row [] flag = elim (Bool-cases is_login) [
    | inl e ↦ rw e refl
    | inr e ↦ rw e refl
  ]
  row_loop-filled pwd is_login row (next ∷ rest) flag =
      row_loop-filled pwd is_login next rest (if is_login then same_text pwd row.1 else false)

  row_loop-passes :
      (pwd : List ℕ) (is_login : Bool) (found : List Row)
      → row_loop pwd is_login found (not is_login) ≡ passes pwd is_login found
  unfolding row_loop
  row_loop-passes pwd is_login [] = refl
  row_loop-passes pwd is_login (row ∷ rest) = row_loop-filled pwd is_login row rest (not is_login)

  -- What `UserVerify` returns and what the database sees of it, in all cases: an empty name or password
  -- fails, and nothing is asked; without a connection it aborts; a query that fails is all; a login passes
  -- exactly if the last row found has the password, and a registration exactly if no row is found, and then
  -- the second query is sent, whatever it reports.
  pub user_verify-passes :
      (name pwd : List ℕ) (is_login : Bool) (db : Database)
      → user_verify name pwd is_login db ≡ (
          let asked = query (select_order name) db in
          let good = passes pwd is_login (rows asked.1) in
          if same_text name [] || same_text pwd []
          then ok (false, db)
          else if not (connects db)
          then abort
          else if asked.0
          then ok (false, asked.1)
          else if good && not is_login
          then ok (true, (query (insert_order name pwd) asked.1).1)
          else ok (good, asked.1))
  unfolding user_verify verdict
  user_verify-passes name pwd is_login db =
      rw (row_loop-passes pwd is_login (rows (query (select_order name) db).1)) (ground arith)
