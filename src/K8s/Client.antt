-- ===== src/K8s/Client.antt =====
-- The calls of controller-runtime that the controllers make on the objects of one kind in one
-- namespace: parameters of the model, with the documented behaviour of CreateOrUpdate as laws.
use tunneld.Prelude.{String, ◌≡◌, ◌≢◌, Option, none, some}
use tunneld.Errors.{Err, Result, ok}

pub record Objects (Store A : Type 0) : Type 1 where
  -- the object of a name
  pub get : Store → String → Option A
  -- the object that CreateOrUpdate starts from when there is none
  pub blank : String → A
  pub create_or_update : Store → String → (A → Result A) → Store × Option Err
  -- client.Delete; a NotFound error, which the sources ignore, is none.
  pub delete : Store → String → Store × Option Err

-- What CreateOrUpdate starts from.
abbrev pub current : {Store A : Type 0} → Objects Store A → Store → String → A
current o st n = elim (o.get st n) [ none ↦ o.blank n | some a ↦ a ]

-- A call that succeeds wrote what the function made of the object, and nothing else of its kind.
pub record ObjectsLaws {Store A : Type 0} (o : Objects Store A) : Type 1 where
  pub written :
      (st : Store) (n : String) (f : A → Result A)
      → (o.create_or_update st n f).1 ≡ none
      → (a : A) × (f (current o st n) ≡ ok a) × (o.get (o.create_or_update st n f).0 n ≡ some a)
  pub others :
      (st : Store) (n m : String) (f : A → Result A)
      → m ≢ n
      → o.get (o.create_or_update st n f).0 m ≡ o.get st m
  pub deleted :
      (st : Store) (n : String) → (o.delete st n).1 ≡ none → o.get (o.delete st n).0 n ≡ none

-- The writes to one kind leave the objects of another alone.
pub record Apart {Store A B : Type 0} (o : Objects Store A) (p : Objects Store B) : Type 1 where
  pub update_apart :
      (st : Store) (n m : String) (f : A → Result A)
      → p.get (o.create_or_update st n f).0 m ≡ p.get st m
  pub delete_apart : (st : Store) (n m : String) → p.get (o.delete st n).0 m ≡ p.get st m
