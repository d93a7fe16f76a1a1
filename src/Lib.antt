-- ===== src/Lib.antt =====
-- CypherSyntax (src/cyphersyntax): an authenticated handshake, sessions, replay defence, and
-- identities in encrypted files.
--
-- Prelude holds the library's names, tests, lists and integers. Py models what the code uses of
-- Python: values, exceptions as results, methods that change an object, `int.to_bytes`, `bytes.hex`,
-- UTF-8 and `str`. Json models `json.loads` and `json.dumps` as src/cyphersyntax calls them: Strings
-- and Scan the texts in quotes, Numbers, Parse the reader, Object what is asked of an object that was
-- read, Dump the writer of flat objects (messages), Datum that of any Python object (the store), and
-- Write the text that Datum writes of a value of JSON where the stack is enough (Embedding, Levels).
-- Protocol is src/cyphersyntax/protocol.py; Names the test of a participant's name.
-- Replay is src/cyphersyntax/replay.py: `observe` and `authenticate_and_record` are the methods,
-- `check` and `record_seen` are `_check_unlocked` and `_record_unlocked`.
-- Crypto has as a record what the package takes from `cryptography`, `hashlib` and `hmac`, and as two
-- further records the lengths and the laws that some theorems ask of it.
-- Kdf is src/cyphersyntax/kdf.py. Wire is src/cyphersyntax/wire.py: the message envelope, whose
-- methods keep their names. Handshake is src/cyphersyntax/handshake.py: Fields has the validators,
-- Messages the three messages and the bytes that are signed, Codec their `to_bytes` and `from_bytes`.
-- Files is a directory on a disk with the system calls that src/cyphersyntax/persistence.py makes on
-- it: a file's bytes are safe once they are synced, the directory's entries once it is synced, and
-- Files/Crash says what a crash may leave. Persistence is `atomic_write_bytes` as the row of its calls,
-- each of which may fail; it keeps every disk on the way, Persistence/Stages names what is known
-- between two calls, and Persistence/Logic has the rules that put the calls together.
-- Store is src/cyphersyntax/store.py: `save` and `load`, over Crypto, Json and Persistence.
-- Identity is src/cyphersyntax/identity.py, Identity/Storage its file, over Store.
-- Session is src/cyphersyntax/session.py: State has the objects, Start the factory, Complete the two
-- `complete` methods, Pair both sides in one process, Messages `encrypt` and `decrypt`, which put Kdf,
-- Wire and Replay together.
-- Examples runs all this over primitives that compute; Examples/Objects has dictionaries that `save`
-- takes and `load` does not give back as they were.
--
-- A text is a list of code points and a byte string a list of numbers. Exceptions keep their class
-- and lose their message. A validator gives back the value that it passed. Which characters are
-- printable is a parameter, since the interpreter's Unicode database says it. Random keys are
-- arguments. A lock makes a call one step; the model has no threads inside a call. `decimal` runs on
-- fuel, one more than the number, and needs one round for each digit. `loads` runs on fuel, one more
-- than the length of the text, and each value, member and item that it reads takes a character at
-- least, see Json/Fuel. Of a float it keeps the spelling. It has no
-- limits on nesting and on digits, where the interpreter's raise; either way `from_bytes` raises its
-- one exception for such an input, and the store's `load` its StoreError: there the nesting that
-- `json.loads` has the stack for is a number of Json/Datum's `Interpreter`.
--
-- In a file's encryption the salt, the nonce and the drawn part of the temporary name are arguments.
-- `json.dumps` of the store takes dictionaries with any keys, lists, tuples and values that have no text.
-- `Interpreter` says what `float.__repr__` writes, how floats compare as keys, and how many levels inside
-- the outermost object `json.dumps` and `json.loads` can go down before RecursionError, in all calls the
-- same; integers of more than 4300 digits are refused as the interpreter does. The directory has one
-- level; whether the destination is a symbolic link and whether the parent directories can be made are
-- told by the environment.
--
-- Not modelled: other processes that change the directory at the same time, names with a NUL, for which
-- the system calls raise ValueError, a stack that ends outside `json`, objects of subclasses and cycles in
-- what `save` is given, `__repr__` and the texts of exceptions, and the scripts of
-- the repository (check_green.py, check_source_quality.py, demo.py).
pub mod Prelude
pub mod Py
pub mod Protocol
pub mod Names
pub mod Replay
pub mod Crypto
pub mod Kdf
pub mod Json
pub mod Wire
pub mod Handshake
pub mod Files
pub mod Persistence
pub mod Store
pub mod Identity
pub mod Session
pub mod Examples
